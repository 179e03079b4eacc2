-- ===== src/Usym/Purge/Settled.antt =====
-- What repeated purges lead to: each `Serialize` runs one.
use universal_symbols.Prelude.{
  ℕ, zero, suc, ◌≤◌, ◌<◌, ◌≡◌, refl, sym, ap, ◌∙◌, Bool, true, false, List, [], ◌∷◌, map, some,
  arith, Option-cases, inl, inr, length, length-map, ◌⊎◌, is_some,
}
use universal_symbols.Prelude.Map.{Map, find, contains, erase_if, Distinct}
use universal_symbols.Usym.{FieldSymbol, TypeSymbol, FunctionSymbol, Usym}
use universal_symbols.Usym.Purge.{
  renamed, rename_field, rename_type, rename_function, purge_duplicate_types,
}
use universal_symbols.Usym.Purge.Survivors.{
  replaced, replaced_is_key, find-rename_type, purge_duplicate_types-Distinct, kept-hash_injective,
}

map_same : {A : Type 0} (f : A → A) (xs : List A) → ((x : A) → f x ≡ x) → map f xs ≡ xs
map_same f [] h = refl
map_same f (x ∷ xs) h = λ i. h x i ∷ map_same f xs h i

rename_field_none : (f : FieldSymbol) → rename_field [] f ≡ f
unfolding rename_field renamed
rename_field_none f = refl

rename_type_none : (e : ℕ × TypeSymbol) → rename_type [] e ≡ e
unfolding rename_type renamed
rename_type_none (id, t) =
    λ i. (id, record t { fields = map_same (rename_field []) t.fields rename_field_none i })

rename_function_none : (e : ℕ × FunctionSymbol) → rename_function [] e ≡ e
unfolding rename_function renamed
rename_function_none (id, f) = λ i.
    (id, record f { argument_type_ids = map_same (renamed []) f.argument_type_ids (λ a. refl) i })

erase_if_none :
    {V : Type 0} (p : ℕ → V → Bool) (m : Map V)
    → ((k : ℕ) (v : V) → p k v ≡ false)
    → erase_if p m ≡ m
unfolding erase_if
erase_if_none p [] h = refl
erase_if_none p ((k, v) ∷ m) h = rw (h k v, erase_if_none p m h) refl

length-erase_if : {V : Type 0} (p : ℕ → V → Bool) (m : Map V) → length (erase_if p m) ≤ length m
unfolding erase_if
length-erase_if p [] = omega arith
length-erase_if p ((k, v) ∷ m) = ground (arith, length-erase_if p m)

length-erase_if_hit :
    {V : Type 0} (p : ℕ → V → Bool) (k : ℕ) (v : V) (m : Map V)
    → find k m ≡ some v
    → ((w : V) → p k w ≡ true)
    → length (erase_if p m) < length m
unfolding erase_if
length-erase_if_hit p k v [] e h = cc
length-erase_if_hit p k v ((j, w) ∷ m) e h =
    ground (arith, length-erase_if p m, length-erase_if_hit p k v m, h w)

map-cases : {V : Type 0} (m : Map V) → (m ≡ []) ⊎ ((k : ℕ) × (v : V) × (find k m ≡ some v))
map-cases [] = inl refl
map-cases ((k, v) ∷ m) = inr (k, v, ground arith)

module _ (hash : TypeSymbol → ℕ) where
  purge_duplicate_types_none :
      (u : Usym) → replaced hash u.type_symbols ≡ [] → purge_duplicate_types hash u ≡ u
  unfolding purge_duplicate_types replaced
  purge_duplicate_types_none u e =
      let purged : Map ℕ → Usym = λ m. record u {
        type_symbols = erase_if (λ id _. contains id m) (map (rename_type m) u.type_symbols);
        function_symbols = map (rename_function m) u.function_symbols;
      } in
      let types : (purged []).type_symbols ≡ u.type_symbols =
        erase_if_none (λ id _. false) (map (rename_type []) u.type_symbols) (λ k v. refl)
        ∙ map_same (rename_type []) u.type_symbols rename_type_none in
      let functions = map_same (rename_function []) u.function_symbols rename_function_none in
      ap purged e ∙ λ i. record u { type_symbols = types i; function_symbols = functions i }

  purge_duplicate_types_fewer :
      (u : Usym) (k n : ℕ)
      → find k (replaced hash u.type_symbols) ≡ some n
      → length (purge_duplicate_types hash u).type_symbols < length u.type_symbols
  unfolding purge_duplicate_types replaced
  purge_duplicate_types_fewer u k n gone = elim (Option-cases (find k u.type_symbols)) [
    | inl e ↦ cc (replaced_is_key hash u.type_symbols k e, gone)
    | inr (t, here) ↦
        let m = replaced hash u.type_symbols in
        omega (
          arith,
          length-erase_if_hit (λ id _. contains id m) k (rename_type m (k, t)).1
              (map (rename_type m) u.type_symbols)
              (find-rename_type m k u.type_symbols ∙ rw here refl) (λ w. rw gone refl),
          length-map (rename_type m) u.type_symbols,
        )
  ]

  -- As many purges, one after the other.
  unfoldable pub purge_often : ℕ → Usym → Usym
  purge_often zero u = u
  purge_often (suc n) u = purge_often n (purge_duplicate_types hash u)

  purge_often_none : (n : ℕ) (u : Usym) → purge_duplicate_types hash u ≡ u → purge_often n u ≡ u
  unfolding purge_often
  purge_often_none zero u e = refl
  purge_often_none (suc n) u e = ap (purge_often n) e ∙ purge_often_none n u e

  purge_often_settles :
      (n : ℕ) (u : Usym)
      → length u.type_symbols ≤ n
      → purge_duplicate_types hash (purge_often n u) ≡ purge_often n u
  unfolding purge_often
  purge_often_settles zero u h = elim (map-cases (replaced hash u.type_symbols)) [
    | inl e ↦ purge_duplicate_types_none u e
    | inr (k, m, gone) ↦ absurd (omega (arith, purge_duplicate_types_fewer u k m gone))
  ]
  purge_often_settles (suc n) u h = elim (map-cases (replaced hash u.type_symbols)) [
    | inl e ↦
        let same = purge_duplicate_types_none u e in
        let stays = purge_often_none (suc n) u same in
        ap (purge_duplicate_types hash) stays ∙ same ∙ sym stays
    | inr (k, m, gone) ↦
        let fewer = purge_duplicate_types_fewer u k m gone in
        purge_often_settles n (purge_duplicate_types hash u) (omega (arith, fewer))
  ]

  pub purge_often-Distinct :
      (n : ℕ) (u : Usym) → Distinct u.type_symbols → Distinct (purge_often n u).type_symbols
  unfolding purge_often
  purge_often-Distinct zero u d = d
  purge_often-Distinct (suc n) u d =
      purge_often-Distinct n (purge_duplicate_types hash u)
        (purge_duplicate_types-Distinct hash u d)

  -- Where every identity has one entry among the types, as many purges as there are types lead to
  -- types that have different hashes, and which a further purge leaves as they are.
  pub purge_often_lem :
      (u : Usym) (j k : ℕ) (s t : TypeSymbol)
      → Distinct u.type_symbols
      → find j (purge_often (length u.type_symbols) u).type_symbols ≡ some s
      → find k (purge_often (length u.type_symbols) u).type_symbols ≡ some t
      → hash s ≡ hash t
      → (j ≡ k)
        × (purge_duplicate_types hash (purge_often (length u.type_symbols) u)
            ≡ purge_often (length u.type_symbols) u)
  purge_often_lem u j k s t d hj hk same =
      let v = purge_often (length u.type_symbols) u in
      let settled = purge_often_settles (length u.type_symbols) u (omega arith) in
      let stays : (i : ℕ) (r : TypeSymbol)
          → find i v.type_symbols ≡ some r
          → contains i (purge_duplicate_types hash v).type_symbols ≡ true =
        λ i r h. ap (λ (w : Usym). contains i w.type_symbols) settled ∙ ap is_some h in
      (
        kept-hash_injective hash v j k s t (purge_often-Distinct (length u.type_symbols) u d) hj hk
            (stays j s hj) (stays k t hk) same,
        settled,
      )

  pub purge_often-next :
      (n : ℕ) (u : Usym) → purge_duplicate_types hash (purge_often n u) ≡ purge_often (suc n) u
  unfolding purge_often
  purge_often-next zero u = refl
  purge_often-next (suc n) u = purge_often-next n (purge_duplicate_types hash u)
