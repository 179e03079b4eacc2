-- ===== src/Usym/Verify/Purged.antt =====
-- `VerifyTypeIds` after `PurgeDuplicateTypes`: every reference that led somewhere still does.
use universal_symbols.Prelude.{
  ℕ, ◌≡◌, refl, Bool, true, List, [], ◌∷◌, map, arith, Option-cases, inl, inr,
}
use universal_symbols.Prelude.Map.{Map, find, contains, erase_if, Distinct}
use universal_symbols.Usym.{FieldSymbol, TypeSymbol, FunctionSymbol, Usym}
use universal_symbols.Usym.Purge.{
  renamed, rename_field, rename_type, rename_function, purge_duplicate_types,
}
use universal_symbols.Usym.Purge.Survivors.{
  replaced, replaced_is_key, renamed_stays, renamed_target,
}
use universal_symbols.Usym.Verify.{
  resolves, verify_arguments, verify_functions, verify_fields, verify_types, verify_type_ids,
}

-- Renaming by `m` takes what resolves among `before` to what resolves among `after`.
module _ (m : Map ℕ) (before after : Map TypeSymbol)
    (follows : (id : ℕ) → resolves before id ≡ true → resolves after (renamed m id) ≡ true) where
  arguments_follow :
      (ids : List ℕ)
      → verify_arguments before ids ≡ true
      → verify_arguments after (map (renamed m) ids) ≡ true
  unfolding verify_arguments
  arguments_follow [] h = refl
  arguments_follow (id ∷ ids) h = ground (arith, follows id, arguments_follow ids)

  fields_follow :
      (fs : List FieldSymbol)
      → verify_fields before fs ≡ true
      → verify_fields after (map (rename_field m) fs) ≡ true
  unfolding verify_fields rename_field
  fields_follow [] h = refl
  fields_follow (f ∷ fs) h = ground (arith, follows f.underlying_type_id, fields_follow fs)

  functions_follow :
      (fs : Map FunctionSymbol)
      → verify_functions before fs ≡ true
      → verify_functions after (map (rename_function m) fs) ≡ true
  unfolding verify_functions rename_function
  functions_follow [] h = refl
  functions_follow ((id, f) ∷ fs) h =
      ground
        (arith, follows f.return_type_id, arguments_follow f.argument_type_ids, functions_follow fs)

  types_follow :
      (p : ℕ → TypeSymbol → Bool) (ts : Map TypeSymbol)
      → verify_types before ts ≡ true
      → verify_types after (erase_if p (map (rename_type m) ts)) ≡ true
  unfolding verify_types rename_type erase_if
  types_follow p [] h = refl
  types_follow p ((id, t) ∷ ts) h =
      ground (arith, follows t.typedef_source, fields_follow t.fields, types_follow p ts)

module _ (hash : TypeSymbol → ℕ) (u : Usym) (d : Distinct u.type_symbols) where
  resolves_follows :
      (id : ℕ)
      → resolves u.type_symbols id ≡ true
      → resolves
          (purge_duplicate_types hash u).type_symbols
          (renamed (replaced hash u.type_symbols) id)
        ≡ true
  unfolding resolves
  resolves_follows id h = elim (Option-cases (find id u.type_symbols)) [
    | inl missing ↦ ground (
      arith,
      renamed_stays (replaced hash u.type_symbols) id,
      replaced_is_key hash u.type_symbols id,
    )
    | inr (t, here) ↦ ground (arith, renamed_target hash u id t d here)
  ]

-- Where every identity has one entry among the types and every type id resolves, every type id
-- still resolves after the duplicates are purged, whatever the hash.
pub verify_type_ids-purge_duplicate_types :
    (hash : TypeSymbol → ℕ) (u : Usym)
    → Distinct u.type_symbols
    → verify_type_ids u ≡ true
    → verify_type_ids (purge_duplicate_types hash u) ≡ true
unfolding verify_type_ids purge_duplicate_types replaced
verify_type_ids-purge_duplicate_types hash u d h = ground (
  arith,
  functions_follow (replaced hash u.type_symbols) u.type_symbols
      (purge_duplicate_types hash u).type_symbols (resolves_follows hash u d) u.function_symbols,
  types_follow (replaced hash u.type_symbols) u.type_symbols
      (purge_duplicate_types hash u).type_symbols (resolves_follows hash u d)
      (λ id _. contains id (replaced hash u.type_symbols)) u.type_symbols,
)
