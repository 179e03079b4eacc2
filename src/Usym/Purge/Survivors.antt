-- ===== src/Usym/Purge/Survivors.antt =====
-- Which type symbols `PurgeDuplicateTypes` keeps, and where the ids of the others lead.
use universal_symbols.Prelude.{
  ℕ, ◌≡◌, refl, sym, ap, ◌∙◌, Bool, true, [], ◌∷◌, ◌++◌, map, none, some, arith, Option-cases, inl,
  inr, append_assoc,
}
use universal_symbols.Prelude.Map.{
  Map, find, contains, erase_if, find-append, Distinct, Distinct-middle, find_split, find-erase_if,
  Distinct-erase_if,
}
use universal_symbols.Usym.{TypeSymbol, Usym}
use universal_symbols.Usym.Purge.{nothing_found, scan, renamed, rename_type, purge_duplicate_types}
use universal_symbols.Usym.Purge.Scan.{
  first_id, scan_lem, scan_other, first_id_split, first_id_here,
}

find-middle :
    (xs : Map TypeSymbol) (k : ℕ) (t : TypeSymbol) (ys : Map TypeSymbol)
    → Distinct (xs ++ ((k, t) ∷ ys))
    → find k (xs ++ ((k, t) ∷ ys)) ≡ some t
find-middle xs k t ys d =
    ground (arith, find-append k xs ((k, t) ∷ ys), Distinct-middle xs k t ys d)

pub find-rename_type :
    (m : Map ℕ) (k : ℕ) (types : Map TypeSymbol)
    → find k (map (rename_type m) types)
      ≡ elim (find k types) [ none ↦ none | some t ↦ some (rename_type m (k, t)).1 ]
unfolding rename_type
find-rename_type m k [] = refl
find-rename_type m k ((j, t) ∷ types) = ground (arith, find-rename_type m k types)

Distinct-rename_type :
    (m : Map ℕ) (types : Map TypeSymbol) → Distinct types → Distinct (map (rename_type m) types)
unfolding rename_type
Distinct-rename_type m [] d = tt
Distinct-rename_type m ((j, t) ∷ types) d =
    ground (arith, Distinct-rename_type m types, find-rename_type m j types)

find-erase_if_hit {ℓ} :
    {V : Type ℓ} (p : ℕ → V → Bool) (k : ℕ) (m : Map V)
    → ((v : V) → p k v ≡ true)
    → find k (erase_if p m) ≡ none
unfolding erase_if
find-erase_if_hit p k [] h = refl
find-erase_if_hit p k ((j, w) ∷ m) h = ground (arith, find-erase_if_hit p k m, h w)

pub renamed_stays : (m : Map ℕ) (k : ℕ) → find k m ≡ none → renamed m k ≡ k
unfolding renamed
renamed_stays m k e = ground arith

pub renamed_gone : (m : Map ℕ) (k n : ℕ) → find k m ≡ some n → renamed m k ≡ n
unfolding renamed
renamed_gone m k n e = ground arith

module _ (hash : TypeSymbol → ℕ) where
  -- The ids that a purge of these symbols replaces.
  unfoldable pub replaced : Map TypeSymbol → Map ℕ
  replaced types = (scan hash types nothing_found).old_to_new

  -- One entry of the map: what it holds, and what its id is replaced by.
  pub replaced_at :
      (types xs : Map TypeSymbol) (k : ℕ) (t : TypeSymbol) (ys : Map TypeSymbol)
      → types ≡ xs ++ ((k, t) ∷ ys)
      → Distinct types
      → (find k types ≡ some t) × (find k (replaced types) ≡ first_id hash (hash t) xs)
  unfolding replaced
  replaced_at types xs k t ys e d =
      let d' : Distinct (xs ++ ((k, t) ∷ ys)) = rw e at d in
      rw e (find-middle xs k t ys d', scan_lem hash xs k t ys d')

  pub replaced_is_key :
      (types : Map TypeSymbol) (k : ℕ) → find k types ≡ none → find k (replaced types) ≡ none
  unfolding replaced
  replaced_is_key types k e = scan_other hash k types nothing_found (rw e)

  -- An id that is replaced leads to a symbol with the same hash, which is not replaced itself.
  pub replaced_target :
      (types : Map TypeSymbol) (k n : ℕ) (t : TypeSymbol)
      → Distinct types
      → find k types ≡ some t
      → find k (replaced types) ≡ some n
      → (t' : TypeSymbol) × (find n types ≡ some t')
        × (hash t' ≡ hash t)
        × (find n (replaced types) ≡ none)
  replaced_target types k n t d here e =
      let (xs, ys, split, _) = find_split k t types here in
      let at = replaced_at types xs k t ys split d in
      let (xs1, t', xs2, split1, same, first) = first_id_split hash (hash t) n xs (sym at.1 ∙ e) in
      let whole : types ≡ xs1 ++ ((n, t') ∷ (xs2 ++ ((k, t) ∷ ys))) =
        split
        ∙ ap (λ l. l ++ ((k, t) ∷ ys)) split1
        ∙ append_assoc xs1 ((n, t') ∷ xs2) ((k, t) ∷ ys) in
      let at1 = replaced_at types xs1 n t' (xs2 ++ ((k, t) ∷ ys)) whole d in
      (t', at1.0, same, at1.1 ∙ rw same first)

  pub find_kept :
      (u : Usym) (k : ℕ) (t : TypeSymbol)
      → find k u.type_symbols ≡ some t
      → find k (replaced u.type_symbols) ≡ none
      → find k (purge_duplicate_types hash u).type_symbols
        ≡ some (rename_type (replaced u.type_symbols) (k, t)).1
  unfolding purge_duplicate_types replaced
  find_kept u k t here stays =
      find-erase_if _ k _ _ (find-rename_type _ k u.type_symbols ∙ rw here) (rw stays)

  find_gone :
      (u : Usym) (k n : ℕ)
      → find k (replaced u.type_symbols) ≡ some n
      → find k (purge_duplicate_types hash u).type_symbols ≡ none
  unfolding purge_duplicate_types replaced
  find_gone u k n gone = find-erase_if_hit _ k _ (λ v. rw gone)

  -- Where every identity has one entry among the types, a type symbol stays exactly when no
  -- symbol before it has its hash. One that stays is found under its identity as before, and
  -- only the ids that it mentions are renamed; one that goes is not found.
  pub find-purge_duplicate_types :
      (u : Usym) (xs : Map TypeSymbol) (k : ℕ) (t : TypeSymbol) (ys : Map TypeSymbol)
      → u.type_symbols ≡ xs ++ ((k, t) ∷ ys)
      → Distinct u.type_symbols
      → find k (purge_duplicate_types hash u).type_symbols ≡ elim (first_id hash (hash t) xs) [
        | none ↦ some (rename_type (replaced u.type_symbols) (k, t)).1
        | some n ↦ none
      ]
  find-purge_duplicate_types u xs k t ys e d =
      let (here, at) = replaced_at u.type_symbols xs k t ys e d in
      elim (Option-cases (first_id hash (hash t) xs)) [
        | inl first ↦ rw first (find_kept u k t here (at ∙ first))
        | inr (n, again) ↦ rw again (find_gone u k n (at ∙ again))
      ]

  pub purge_duplicate_types-Distinct :
      (u : Usym) → Distinct u.type_symbols → Distinct (purge_duplicate_types hash u).type_symbols
  unfolding purge_duplicate_types
  purge_duplicate_types-Distinct u d =
      Distinct-erase_if _ _ (Distinct-rename_type _ u.type_symbols d)

  -- Where every identity has one entry among the types, the id of a type is renamed to one of a
  -- type with the same hash that stays after the purge.
  pub renamed_target :
      (u : Usym) (k : ℕ) (t : TypeSymbol)
      → Distinct u.type_symbols
      → find k u.type_symbols ≡ some t
      → (t' : TypeSymbol) × (find (renamed (replaced u.type_symbols) k) u.type_symbols ≡ some t')
        × (hash t' ≡ hash t)
        × (find (renamed (replaced u.type_symbols) k) (purge_duplicate_types hash u).type_symbols
            ≡ some
                (rename_type (replaced u.type_symbols) (renamed (replaced u.type_symbols) k, t')).1)
  renamed_target u k t d here = elim (Option-cases (find k (replaced u.type_symbols))) [
    | inl stays ↦ rw (renamed_stays _ k stays) (t, here, refl, find_kept u k t here stays)
    | inr (n, gone) ↦
        let (t', there, same, stays) = replaced_target u.type_symbols k n t d here gone in
        rw (renamed_gone _ k n gone) (t', there, same, find_kept u n t' there stays)
  ]

  kept_first :
      (u : Usym) (k : ℕ) (t : TypeSymbol)
      → Distinct u.type_symbols
      → find k u.type_symbols ≡ some t
      → contains k (purge_duplicate_types hash u).type_symbols ≡ true
      → first_id hash (hash t) u.type_symbols ≡ some k
  kept_first u k t d here kept = elim (Option-cases (find k (replaced u.type_symbols))) [
    | inl stays ↦
        let (xs, ys, split, _) = find_split k t u.type_symbols here in
        let at = replaced_at u.type_symbols xs k t ys split d in
        rw split (first_id_here hash xs k t ys (sym at.1 ∙ stays))
    | inr (n, gone) ↦ cc (find_gone u k n gone, kept)
  ]

  -- Where every identity has one entry among the types, no two types that stay had the same
  -- hash.
  pub kept-hash_injective :
      (u : Usym) (j k : ℕ) (s t : TypeSymbol)
      → Distinct u.type_symbols
      → find j u.type_symbols ≡ some s
      → find k u.type_symbols ≡ some t
      → contains j (purge_duplicate_types hash u).type_symbols ≡ true
      → contains k (purge_duplicate_types hash u).type_symbols ≡ true
      → hash s ≡ hash t
      → j ≡ k
  kept-hash_injective u j k s t d hj hk kj kk same =
      cc (kept_first u j s d hj kj, kept_first u k t d hk kk)
