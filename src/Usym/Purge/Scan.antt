-- ===== src/Usym/Purge/Scan.antt =====
-- What the first loop of `PurgeDuplicateTypes` finds, against a description without its maps.
use universal_symbols.Prelude.{
  ℕ, ◌≡◌, refl, ap, ◌∙◌, false, [], ◌∷◌, ◌++◌, Option, none, some, arith, ◌==◌, if◌then◌else◌,
  or_else, Option-cases, Bool-cases, inl, inr, ==_iff,
}
use universal_symbols.Prelude.Map.{Map, find, contains, find-put, Distinct, Distinct-middle}
use universal_symbols.Usym.{TypeSymbol}
use universal_symbols.Usym.Purge.{Found, nothing_found, scan_symbol, scan}

module _ (hash : TypeSymbol → ℕ) where
  -- The id of the first symbol with the hash `h`.
  unfoldable pub first_id : ℕ → Map TypeSymbol → Option ℕ
  first_id h [] = none
  first_id h ((id, t) ∷ m) = if hash t == h then some id else first_id h m

  scan_hashes :
      (h : ℕ) (m : Map TypeSymbol) (s : Found)
      → find h (scan hash m s).hashes_to_ids ≡ or_else (find h s.hashes_to_ids) (first_id h m)
  unfolding scan first_id
  scan_hashes h [] s = ground arith
  scan_hashes h ((id, t) ∷ m) s = ground (
    arith,
    scan_hashes h m (scan_symbol hash id t s),
    find-put (hash t) h id s.hashes_to_ids,
    ==_iff (hash t) h,
  )

  scan-append :
      (xs ys : Map TypeSymbol) (s : Found) → scan hash (xs ++ ys) s ≡ scan hash ys (scan hash xs s)
  unfolding scan
  scan-append [] ys s = refl
  scan-append ((id, t) ∷ xs) ys s = scan-append xs ys (scan_symbol hash id t s)

  scan_symbol_other :
      (k id : ℕ) (t : TypeSymbol) (s : Found)
      → (id == k) ≡ false
      → find k (scan_symbol hash id t s).old_to_new ≡ find k s.old_to_new
  unfolding scan_symbol
  scan_symbol_other k id t s ne = elim (Option-cases (find (hash t) s.hashes_to_ids)) [
    | inl e ↦ ground arith
    | inr (n, e) ↦ ground (arith, find-put id k n s.old_to_new)
  ]

  -- An id that is no key is left alone.
  pub scan_other :
      (k : ℕ) (m : Map TypeSymbol) (s : Found)
      → contains k m ≡ false
      → find k (scan hash m s).old_to_new ≡ find k s.old_to_new
  unfolding scan
  scan_other k [] s out = refl
  scan_other k ((id, t) ∷ m) s out =
      ground (arith, scan_other k m (scan_symbol hash id t s), scan_symbol_other k id t s)

  scan_symbol_self :
      (id : ℕ) (t : TypeSymbol) (s : Found)
      → find id s.old_to_new ≡ none
      → find id (scan_symbol hash id t s).old_to_new ≡ find (hash t) s.hashes_to_ids
  unfolding scan_symbol
  scan_symbol_self id t s new = elim (Option-cases (find (hash t) s.hashes_to_ids)) [
    | inl e ↦ ground arith
    | inr (n, e) ↦ ground (arith, find-put id id n s.old_to_new)
  ]

  -- A symbol is replaced exactly when one before it has its hash, and by the first such.
  pub scan_lem :
      (xs : Map TypeSymbol) (k : ℕ) (t : TypeSymbol) (ys : Map TypeSymbol)
      → Distinct (xs ++ ((k, t) ∷ ys))
      → find k (scan hash (xs ++ ((k, t) ∷ ys)) nothing_found).old_to_new ≡ first_id (hash t) xs
  unfolding scan
  scan_lem xs k t ys d =
      let (before, behind) = Distinct-middle xs k t ys d in
      let s = scan hash xs nothing_found in
      ap (λ (r : Found). find k r.old_to_new) (scan-append xs ((k, t) ∷ ys) nothing_found)
      ∙ scan_other k ys (scan_symbol hash k t s) behind
      ∙ scan_symbol_self k t s (scan_other k xs nothing_found before)
      ∙ scan_hashes (hash t) xs nothing_found

  pub first_id_split :
      (h n : ℕ) (m : Map TypeSymbol)
      → first_id h m ≡ some n
      → (xs : Map TypeSymbol) × (t : TypeSymbol) × (ys : Map TypeSymbol) × (m ≡ xs ++ ((n, t) ∷ ys))
        × (hash t ≡ h)
        × (first_id h xs ≡ none)
  unfolding first_id
  first_id_split h n [] e = cc
  first_id_split h n ((id, t) ∷ m) e = elim (Bool-cases (hash t == h)) [
    | inl hit ↦ ([], t, m, ground arith, ground arith, refl)
    | inr miss ↦
        let (xs, t', ys, split, same, none_before) = first_id_split h n m (ground arith) in
        ((id, t) ∷ xs, t', ys, cc, same, rw miss none_before)
  ]

  pub first_id_here :
      (xs : Map TypeSymbol) (k : ℕ) (t : TypeSymbol) (ys : Map TypeSymbol)
      → first_id (hash t) xs ≡ none
      → first_id (hash t) (xs ++ ((k, t) ∷ ys)) ≡ some k
  unfolding first_id
  first_id_here [] k t ys e = ground arith
  first_id_here ((j, s) ∷ xs) k t ys e = ground (arith, first_id_here xs k t ys)
