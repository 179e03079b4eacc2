-- ===== src/ReCore/Array/Sort/Sorted.antt =====
-- `QuickSort` with and without an element behind the array that is larger than all of its own.
use universal_symbols.Prelude.{
  ℕ, zero, suc, ◌+◌, ◌≤◌, ◌<◌, ◌≡◌, refl, sym, ap, ◌∙◌, Bool, true, false, not, List, some, ◌==◌,
  ltb, get_elem?, arith, Bool-cases, inl, inr,
}
use universal_symbols.ReCore.Linked.{Walk}
use universal_symbols.ReCore.Array.{Array}
use universal_symbols.ReCore.Array.Sort.{quick_sort, sort}
use universal_symbols.ReCore.Array.Sort.Range.{
  below, above, InRange, IsShuffled, IsShuffled-refl, IsShuffled-trans, IsShuffled-wider,
  get_elem?-inside, length-get_elem?,
}
use universal_symbols.ReCore.Array.Sort.Partition.{InRange-same}
use universal_symbols.ReCore.Array.Sort.Split.{at_most, more_than, partition_lem}

-- What `<=` and `>` of numbers keep to.
pub record IsOrder {T : Type 0} (leq : T → T → Bool) : Type 0 where
  pub total : (a b : T) → leq a b ≡ false → leq b a ≡ true
  pub transitive : (a b c : T) → leq a b ≡ true → leq b c ≡ true → leq a c ≡ true

IsOrder-refl : {T : Type 0} (leq : T → T → Bool) → IsOrder leq → (a : T) → leq a a ≡ true
IsOrder-refl leq order a = elim (Bool-cases (leq a a)) [ inl e ↦ e | inr e ↦ order.total a a e ]

-- Of two elements of the part, the one in front is not larger.
abbrev pub IsSorted : {T : Type 0} → (T → T → Bool) → ℕ → ℕ → List T → Type 0
IsSorted {T} leq low high b =
    (i k : ℕ) (v w : T)
    → low ≤ i
    → i ≤ k
    → k < high
    → get_elem? b i ≡ some v
    → get_elem? b k ≡ some w
    → leq v w ≡ true

module _ {T : Type 0} (leq : T → T → Bool) (order : IsOrder leq) where
  more_than-leq : (p v : T) → more_than leq p v ≡ true → leq p v ≡ true
  more_than-leq p v h = order.total v p (ground arith)

  -- Two sorted parts around a pivot.
  IsSorted-join :
      (low place high : ℕ) (p : T) (b : List T)
      → IsSorted leq low place b
      → IsSorted leq (place + 1) high b
      → get_elem? b place ≡ some p
      → InRange (at_most leq p) low place b
      → InRange (more_than leq p) (place + 1) high b
      → IsSorted leq low high b
  IsSorted-join low place high p b left right pivot small large i k v w from le to hv hw =
      elim (Bool-cases (ltb k place)) [
        | inl e ↦ left i k v w from le (below k place e) hv hw
        | inr e ↦ elim (Bool-cases (ltb place i)) [
          | inl e1 ↦ let after = below place i e1 in right i k v w (omega arith) le to hv hw
          | inr e1 ↦
              let here = above place i e1 in
              let there = above k place e in
              let first : leq v p ≡ true = elim (Bool-cases (i == place)) [
                | inl e2 ↦
                    let at : i ≡ place = ground arith in
                    let same : v ≡ p =
                      let hv1 = ap (get_elem? b) (sym at) ∙ hv in ground (arith, hv1, pivot) in
                    rw same (IsOrder-refl leq order p)
                | inr e2 ↦ small i v from (ground arith) hv
              ] in
              let second : leq p w ≡ true = elim (Bool-cases (k == place)) [
                | inl e2 ↦
                    let at : k ≡ place = ground arith in
                    let same : w ≡ p =
                      let hw1 = ap (get_elem? b) (sym at) ∙ hw in ground (arith, hw1, pivot) in
                    rw same (IsOrder-refl leq order p)
                | inr e2 ↦ more_than-leq p w (large k w (ground arith) to hw)
              ] in
              order.transitive v p w first second
        ]
      ]

  -- One element or none.
  IsSorted-empty : (low high : ℕ) (b : List T) → high ≤ low → IsSorted leq low high b
  IsSorted-empty low high b none_there i k v w from le to hv hw = absurd (omega arith)

  -- The part before the pivot is sorted, then the part behind it.
  halves-IsSorted :
      (low place high : ℕ) (p : T) (b1 b2 b3 : List T)
      → low ≤ place
      → place < high
      → get_elem? b1 place ≡ some p
      → InRange (at_most leq p) low place b1
      → InRange (more_than leq p) (place + 1) high b1
      → IsShuffled low place b1 b2
      → IsSorted leq low place b2
      → IsShuffled (place + 1) high b2 b3
      → IsSorted leq (place + 1) high b3
      → IsShuffled low high b1 b3 × IsSorted leq low high b3
  halves-IsSorted low place high p b1 b2 b3 from to at small more moved1 sorted1 moved2 sorted2 =
      let left : IsSorted leq low place b3 = λ i k v w f le t hv hw.
        sorted1 i k v w f le t (sym (moved2.before i (omega arith)) ∙ hv)
          (sym (moved2.before k (omega arith)) ∙ hw) in
      (
        IsShuffled-trans low high b1 b2 b3
            (IsShuffled-wider low high low place b1 b2 (omega arith) (omega arith) moved1)
            (IsShuffled-wider low high (place + 1) high b2 b3 (omega arith) (omega arith) moved2),
        IsSorted-join low place high p b3 left sorted2
            (moved2.before place (omega arith) ∙ moved1.behind place (omega arith) ∙ at)
            (InRange-same (at_most leq p) low place b2 b3 (λ k f t. moved2.before k (omega arith))
              (moved1.inside (at_most leq p) small))
            (moved2.inside (more_than leq p) (
              InRange-same (more_than leq p) (place + 1) high b1 b2
                (λ k f t. moved1.behind k (omega arith)) more)),
      )

  quick_sort_lem :
      (fuel low high : ℕ) (b : List T) (h : ℕ) (s : T)
      → high ≤ h
      → get_elem? b h ≡ some s
      → InRange (λ v. not (leq s v)) low high b
      → high ≤ low + fuel
      → (b1 : List T) × (quick_sort leq fuel low high b ≡ Walk.arrived b1)
        × IsShuffled low high b b1
        × IsSorted leq low high b1
  unfolding quick_sort
  quick_sort_lem zero low high b h s past end smaller enough =
      let done : ltb low high ≡ false = ground arith in
      (
        b,
        rw (quick_sort, done) refl,
        IsShuffled-refl low high b,
        IsSorted-empty low high b (omega arith),
      )
  quick_sort_lem (suc fuel) low high b h s past end smaller enough =
      elim (Bool-cases (ltb low high)) [
        | inr e ↦ (
          b,
          rw (quick_sort, e) refl,
          IsShuffled-refl low high b,
          IsSorted-empty low high b (above low high e),
        )
        | inl e ↦
            let ordered = below low high e in
            let inside = length-get_elem? b h s end in
            let (p, pivot) = get_elem?-inside b low (omega arith) in
            let large : leq s p ≡ false =
              let apart = smaller low p (omega arith) ordered pivot in ground (arith, apart) in
            let (place, b1, ends, from, to, at, small, more, moved) =
              partition_lem leq low high p b h s ordered past pivot (IsOrder-refl leq order p) end
                large in
            let smaller1 = moved.inside (λ v. not (leq s v)) smaller in
            let end1 = moved.behind h past ∙ end in
            let (b2, ends1, moved1, sorted1) =
              quick_sort_lem fuel low place b1 h s (omega arith) end1
                (λ k v f t here. smaller1 k v f (omega arith) here) (omega arith) in
            let end2 = moved1.behind h (omega arith) ∙ end1 in
            let (b3, ends2, moved2, sorted2) =
              quick_sort_lem fuel (place + 1) high b2 h s past end2
                (InRange-same (λ v. not (leq s v)) (place + 1) high b1 b2
                  (λ k f t. moved1.behind k (omega arith))
                  (λ k v f t here. smaller1 k v (omega arith) t here))
                (omega arith) in
            let (moved3, sorted3) =
              halves-IsSorted low place high p b1 b2 b3 from to at small more moved1 sorted1 moved2
                sorted2 in
            (
              b3,
              rw (quick_sort, e, ends, ends1) ends2,
              IsShuffled-trans low high b b1 b3 moved moved3,
              sorted3,
            )
      ]

  -- Where `<=` is a total order and the block holds, behind the array's elements, one that is larger
  -- than all of them, `QuickSort` ends: the elements changed places among themselves, the rest of the
  -- block is as before, and of two elements the one in front is not larger.
  pub sort-IsSorted :
      (a : Array T) (h : ℕ) (s : T)
      → a.size ≤ h
      → get_elem? a.data_block h ≡ some s
      → InRange (λ v. not (leq s v)) 0 a.size a.data_block
      → (a1 : Array T) × (sort leq a ≡ Walk.arrived a1)
        × (a1.size ≡ a.size)
        × IsShuffled 0 a.size a.data_block a1.data_block
        × IsSorted leq 0 a.size a1.data_block
  unfolding sort
  sort-IsSorted a h s past end smaller =
      let (b1, ends, moved, sorted) =
        quick_sort_lem a.size 0 a.size a.data_block h s past end smaller (omega arith) in
      (record a { data_block = b1 }, rw (sort, ends) refl, refl, moved, sorted)
