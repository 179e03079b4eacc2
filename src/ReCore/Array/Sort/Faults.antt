-- ===== src/ReCore/Array/Sort/Faults.antt =====
-- `QuickSort` on an array that fills its block.
use universal_symbols.Prelude.{
  ℕ, zero, suc, ◌+◌, ◌≤◌, ◌<◌, ◌≡◌, refl, Bool, true, List, some, ltb, length, get_elem?, arith,
  Option-cases, inl, inr,
}
use universal_symbols.ReCore.Linked.{Walk}
use universal_symbols.ReCore.Array.{Array}
use universal_symbols.ReCore.Array.Sort.{
  element_at, scan_up, partition_loop, partition, quick_sort, sort,
}
use universal_symbols.ReCore.Array.Sort.Range.{InRange, length-get_elem?}

module _ {T : Type 0} (leq : T → T → Bool) where
  scan_up_past :
      (fuel low i : ℕ) (b : List T) (p : T)
      → get_elem? b low ≡ some p
      → InRange (λ v. leq v p) (i + 1) (length b) b
      → i < length b
      → length b ≤ i + fuel
      → scan_up leq fuel low i b ≡ Walk.fault
  unfolding scan_up element_at
  scan_up_past zero low i b p pivot small before enough = absurd (omega arith)
  scan_up_past (suc fuel) low i b p pivot small before enough =
      elim (Option-cases (get_elem? b (i + 1))) [
        | inl e ↦ rw (scan_up, element_at, e) refl
        | inr (x, e) ↦
            let inside = length-get_elem? b (i + 1) x e in
            let passes = small (i + 1) x (omega arith) inside e in
            rw (scan_up, element_at, e, pivot, passes)
              (scan_up_past fuel low (i + 1) b p pivot
                (λ k v f t here. small k v (omega arith) t here) inside (omega arith))
      ]

  quick_sort_faults :
      (n : ℕ) (b : List T) (p : T)
      → n ≡ length b
      → get_elem? b 0 ≡ some p
      → InRange (λ v. leq v p) 0 n b
      → quick_sort leq n 0 n b ≡ Walk.fault
  unfolding quick_sort partition partition_loop
  quick_sort_faults zero b p fills first largest =
      let inside = length-get_elem? b 0 p first in absurd (omega arith)
  quick_sort_faults (suc n) b p fills first largest =
      let on : ltb 0 (suc n) ≡ true = ground arith in
      let past =
        scan_up_past (suc (length b)) 0 0 b p first
          (λ k v f t here. largest k v (omega arith) (omega arith) here) (omega arith)
          (omega arith) in
      rw (quick_sort, on, partition, partition_loop, on, past) refl

  -- Where the array fills its block and its first element is its largest, `QuickSort` reads behind
  -- the block.
  pub sort_faults :
      (a : Array T) (p : T)
      → a.size ≡ length a.data_block
      → get_elem? a.data_block 0 ≡ some p
      → InRange (λ v. leq v p) 0 a.size a.data_block
      → sort leq a ≡ Walk.fault
  unfolding sort
  sort_faults a p fills first largest =
      rw (sort, quick_sort_faults a.size a.data_block p fills first largest) refl
