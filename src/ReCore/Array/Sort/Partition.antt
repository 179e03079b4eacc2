-- ===== src/ReCore/Array/Sort/Partition.antt =====
-- `Partition` on a block with an element behind the part that is larger than the pivot.
use mathlib.Core.Path.{subst}
use universal_symbols.Prelude.{
  ℕ, zero, suc, ◌+◌, ◌≤◌, ◌<◌, ◌≡◌, refl, sym, ap, ◌∙◌, Bool, true, false, not, List, some, ◌==◌,
  ltb, length, get_elem?, arith, Bool-cases, inl, inr,
}
use universal_symbols.ReCore.Linked.{Walk}
use universal_symbols.ReCore.Array.Sort.{element_at, scan_up, scan_down}
use universal_symbols.ReCore.Array.Sort.Range.{
  below, above, InRange, get_elem?-inside, length-get_elem?,
}

pub InRange-join :
    {T : Type 0} (p : T → Bool) (low mid high : ℕ) (b : List T)
    → InRange p low mid b
    → InRange p mid high b
    → InRange p low high b
InRange-join p low mid high b h h1 i v from to here = elim (Bool-cases (ltb i mid)) [
  | inl e ↦ h i v from (below i mid e) here
  | inr e ↦ h1 i v (above i mid e) to here
]

pub InRange-one :
    {T : Type 0} (p : T → Bool) (i : ℕ) (b : List T) (v : T)
    → get_elem? b i ≡ some v
    → p v ≡ true
    → InRange p i (i + 1) b
InRange-one p i b v here passes k w from to there =
    let at : k ≡ i = omega arith in
    let same : v ≡ w =
      let there1 = ap (get_elem? b) (sym at) ∙ there in ground (arith, here, there1) in
    subst (λ u. p u ≡ true) same passes

pub InRange-empty :
    {T : Type 0} (p : T → Bool) (low high : ℕ) (b : List T) → high ≤ low → InRange p low high b
InRange-empty p low high b le i v from to here = absurd (omega arith)

-- Where the elements of the part are those of another block.
pub InRange-same :
    {T : Type 0} (p : T → Bool) (low high : ℕ) (b b1 : List T)
    → ((i : ℕ) → low ≤ i → i < high → get_elem? b1 i ≡ get_elem? b i)
    → InRange p low high b
    → InRange p low high b1
InRange-same p low high b b1 same h i v from to here = h i v from to (sym (same i from to) ∙ here)

module _ {T : Type 0} (leq : T → T → Bool) where
  -- An element that is small enough does not stand where one does that is not.
  pub not_end :
      (i h : ℕ) (b : List T) (x s p : T)
      → get_elem? b i ≡ some x
      → get_elem? b h ≡ some s
      → leq x p ≡ true
      → leq s p ≡ false
      → (i == h) ≡ false
  not_end i h b x s p here end small large = elim (Bool-cases (i == h)) [
    | inl e ↦ let same : i ≡ h = ground (arith, e) in cc
    | inr e ↦ e
  ]

  pub scan_up_lem :
      (fuel low i : ℕ) (b : List T) (p : T) (h : ℕ) (s : T)
      → get_elem? b low ≡ some p
      → get_elem? b h ≡ some s
      → leq s p ≡ false
      → i < h
      → h ≤ i + fuel
      → (i1 : ℕ) × (x : T) × (scan_up leq fuel low i b ≡ Walk.arrived i1)
        × (i < i1)
        × (i1 ≤ h)
        × (get_elem? b i1 ≡ some x)
        × (leq x p ≡ false)
        × InRange (λ v. leq v p) (i + 1) i1 b
  unfolding scan_up element_at
  scan_up_lem zero low i b p h s pivot end large before enough = absurd (omega arith)
  scan_up_lem (suc fuel) low i b p h s pivot end large before enough =
      let inside = length-get_elem? b h s end in
      let (x, here) = get_elem?-inside b (i + 1) (omega arith) in
      elim (Bool-cases (leq x p)) [
        | inl e ↦
            let apart : (i + 1 == h) ≡ false = not_end (i + 1) h b x s p here end e large in
            let (i1, y, ends, more, le, there, stop, between) =
              scan_up_lem fuel low (i + 1) b p h s pivot end large (ground arith) (omega arith) in
            (
              i1,
              y,
              rw (scan_up, element_at, here, pivot, e) ends,
              omega arith,
              le,
              there,
              stop,
              InRange-join (λ v. leq v p) (i + 1) (i + 1 + 1) i1 b
                  (InRange-one (λ v. leq v p) (i + 1) b x here e) between,
            )
        | inr e ↦ (
          i + 1,
          x,
          rw (scan_up, element_at, here, pivot, e) refl,
          omega arith,
          omega arith,
          here,
          e,
          InRange-empty (λ v. leq v p) (i + 1) (i + 1) b (omega arith),
        )
      ]

  pub scan_down_lem :
      (low j : ℕ) (b : List T) (p : T) (i : ℕ) (w : T)
      → get_elem? b low ≡ some p
      → get_elem? b i ≡ some w
      → leq w p ≡ true
      → i < j
      → j ≤ length b
      → (j1 : ℕ) × (y : T) × (scan_down leq low j b ≡ Walk.arrived j1)
        × (i ≤ j1)
        × (j1 < j)
        × (get_elem? b j1 ≡ some y)
        × (leq y p ≡ true)
        × InRange (λ v. not (leq v p)) (j1 + 1) j b
  unfolding scan_down element_at
  scan_down_lem low zero b p i w pivot start small before inside = absurd (omega arith)
  scan_down_lem low (suc j) b p i w pivot start small before inside =
      let (y, here) = get_elem?-inside b j (omega arith) in
      elim (Bool-cases (leq y p)) [
        | inl e ↦ (
          j,
          y,
          rw (scan_down, element_at, here, pivot, e) refl,
          omega arith,
          omega arith,
          here,
          e,
          InRange-empty (λ v. not (leq v p)) (j + 1) (suc j) b (omega arith),
        )
        | inr e ↦
            let apart : (i == j) ≡ false = not_end i j b w y p start here small e in
            let (j1, z, ends, le, less, there, stop, between) =
              scan_down_lem low j b p i w pivot start small (ground arith) (omega arith) in
            let last : InRange (λ v. not (leq v p)) j (suc j) b = λ k v from to at.
              InRange-one (λ v. not (leq v p)) j b y here (rw e refl) k v from (omega arith) at in
            (
              j1,
              z,
              rw (scan_down, element_at, here, pivot, e) ends,
              le,
              omega arith,
              there,
              stop,
              InRange-join (λ v. not (leq v p)) (j1 + 1) j (suc j) b between last,
            )
      ]
