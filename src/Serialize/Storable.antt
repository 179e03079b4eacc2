-- ===== src/Serialize/Storable.antt =====
-- A purge leaves symbols within the ranges of the binary format.
use universal_symbols.Prelude.{
  ℕ, ◌≤◌, ◌≡◌, Bool, List, [], ◌∷◌, map, some, arith, length, All, length-map, Option-cases,
  Bool-cases, inl, inr, ◌==◌,
}
use universal_symbols.Prelude.Map.{Map, find, contains, Distinct, erase_if}
use universal_symbols.Usym.{FieldSymbol, TypeSymbol, FunctionSymbol, Usym}
use universal_symbols.Usym.Purge.{
  renamed, rename_field, rename_type, rename_function, purge_duplicate_types,
}
use universal_symbols.Usym.Purge.Survivors.{
  replaced, replaced_is_key, replaced_target, renamed_stays, renamed_gone,
}
use universal_symbols.Serializers.Binary.RoundTrip.{
  IsU32, IsStorableField, IsStorableType, IsStorableFunction, IsStorable,
}

find-IsStorable :
    (k : ℕ) (t : TypeSymbol) (m : Map TypeSymbol)
    → All IsStorableType m
    → find k m ≡ some t
    → IsStorableType (k, t)
find-IsStorable k t [] h e = cc
find-IsStorable k t ((j, s) ∷ m) (h, hs) e = elim (Bool-cases (j == k)) [
  | inl here ↦
      let j-eq : j ≡ k = ground arith in let s-eq : s ≡ t = ground arith in rw (← j-eq, ← s-eq) h
  | inr elsewhere ↦ find-IsStorable k t m hs (ground arith)
]

renamed-IsU32 :
    (hash : TypeSymbol → ℕ) (types : Map TypeSymbol) (id : ℕ)
    → Distinct types
    → All IsStorableType types
    → IsU32 id
    → IsU32 (renamed (replaced hash types) id)
renamed-IsU32 hash types id d h small = elim (Option-cases (find id (replaced hash types))) [
  | inl stays ↦ rw (renamed_stays _ id stays) small
  | inr (n, gone) ↦ elim (Option-cases (find id types)) [
    | inl missing ↦ cc (replaced_is_key hash types id missing)
    | inr (t, here) ↦
        let (t', there, _, _) = replaced_target hash types id n t d here gone in
        let stored = find-IsStorable n t' types h there in rw (renamed_gone _ id n gone) stored.key
  ]
]

module _ (m : Map ℕ) (keeps : (id : ℕ) → IsU32 id → IsU32 (renamed m id)) where
  fields-IsStorable :
      (fs : List FieldSymbol)
      → All IsStorableField fs
      → All IsStorableField (map (rename_field m) fs)
  unfolding rename_field
  fields-IsStorable [] h = tt
  fields-IsStorable (f ∷ fs) (h, hs) = (
    record {
      id = h.id;
      name = h.name;
      underlying_type_id = keeps f.underlying_type_id h.underlying_type_id;
      offset = h.offset;
      union_id = h.union_id;
    },
    fields-IsStorable fs hs,
  )

  ids-IsU32 : (ids : List ℕ) → All IsU32 ids → All IsU32 (map (renamed m) ids)
  ids-IsU32 [] h = tt
  ids-IsU32 (id ∷ ids) (h, hs) = (keeps id h, ids-IsU32 ids hs)

  type-IsStorable : (e : ℕ × TypeSymbol) → IsStorableType e → IsStorableType (rename_type m e)
  unfolding rename_type
  type-IsStorable (k, t) h = record {
    key = h.key;
    id = h.id;
    name = h.name;
    length_ = h.length_;
    field_count = h.field_count;
    stored = omega (arith, length-map (rename_field m) t.fields, h.stored);
    fields = fields-IsStorable t.fields h.fields;
    typedef_source = keeps t.typedef_source h.typedef_source;
  }

  types-IsStorable :
      (p : ℕ → TypeSymbol → Bool) (ts : Map TypeSymbol)
      → All IsStorableType ts
      → All IsStorableType (erase_if p (map (rename_type m) ts))
        × (length (erase_if p (map (rename_type m) ts)) ≤ length ts)
  unfolding erase_if
  types-IsStorable p [] h = (tt, omega arith)
  types-IsStorable p (e ∷ ts) (h, hs) =
      let rest = types-IsStorable p ts hs in
      let r = rename_type m e in
      elim (Bool-cases (p r.0 r.1)) [
        | inl out ↦ rw out (rest.0, omega arith)
        | inr stays ↦ rw stays ((type-IsStorable e h, rest.0), omega arith)
      ]

  functions-IsStorable :
      (fs : Map FunctionSymbol)
      → All IsStorableFunction fs
      → All IsStorableFunction (map (rename_function m) fs)
  unfolding rename_function
  functions-IsStorable [] h = tt
  functions-IsStorable ((k, f) ∷ fs) (h, hs) = (
    record {
      key = h.key;
      id = h.id;
      name = h.name;
      return_type_id = keeps f.return_type_id h.return_type_id;
      argument_count = h.argument_count;
      stored = omega (arith, length-map (renamed m) f.argument_type_ids, h.stored);
      argument_type_ids = ids-IsU32 f.argument_type_ids h.argument_type_ids;
      virtual_address = h.virtual_address;
    },
    functions-IsStorable fs hs,
  )

pub purge_duplicate_types-IsStorable :
    (hash : TypeSymbol → ℕ) (u : Usym)
    → Distinct u.type_symbols
    → IsStorable u
    → IsStorable (purge_duplicate_types hash u)
unfolding purge_duplicate_types replaced
purge_duplicate_types-IsStorable hash u d h =
    let m = replaced hash u.type_symbols in
    let keeps = λ (id : ℕ). renamed-IsU32 hash u.type_symbols id d h.type_symbols in
    let types = types-IsStorable m keeps (λ id _. contains id m) u.type_symbols h.type_symbols in
    record {
      magic = h.magic;
      types = omega (arith, types.1, h.types);
      type_symbols = types.0;
      functions = omega (arith, length-map (rename_function m) u.function_symbols, h.functions);
      function_symbols = functions-IsStorable m keeps u.function_symbols h.function_symbols;
    }
