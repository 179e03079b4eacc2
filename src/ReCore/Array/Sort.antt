-- ===== src/ReCore/Array/Sort.antt =====
-- `Partition` and `QuickSort` of REArray.h, for trivial element types. An access outside the block is a
-- fault; `leq` is the elements' `<=`, and `>` its negation. Indices fit an `int`.
pub mod Range
pub mod Partition
pub mod Split
pub mod Sorted
pub mod Faults
use universal_symbols.Prelude.{
  ℕ, zero, suc, ◌+◌, Bool, true, false, List, Option, none, some, ltb, length, get_elem?, set,
}
use universal_symbols.ReCore.Linked.{Walk, ◌and_then◌}
use universal_symbols.ReCore.Array.{Array}

module _ {T : Type 0} where
  unfoldable pub element_at : List T → ℕ → Walk T
  element_at b i = elim (get_elem? b i) [ none ↦ Walk.fault | some v ↦ Walk.arrived v ]

  -- `std::swap` of two elements.
  unfoldable pub swap : ℕ → ℕ → List T → Walk (List T)
  unfolding element_at
  swap i j b =
      element_at b i and_then λ x. element_at b j and_then λ y. Walk.arrived (set (set b i y) j x)

module _ {T : Type 0} (leq : T → T → Bool) where
  -- The loop that moves `i` up. The pivot is a reference to the element at `low`. The last turn is at
  -- the end of the block at the latest.
  unfoldable pub scan_up : ℕ → ℕ → ℕ → List T → Walk ℕ
  unfolding element_at
  scan_up zero low i b = Walk.out_of_fuel
  scan_up (suc fuel) low i b = element_at b (i + 1) and_then λ x. element_at b low and_then λ pivot.
      elim (leq x pivot) [ true ↦ scan_up fuel low (i + 1) b | false ↦ Walk.arrived (i + 1) ]

  -- The loop that moves `j` down; below 0 is outside the block.
  unfoldable pub scan_down : ℕ → ℕ → List T → Walk ℕ
  unfolding element_at
  scan_down low zero b = Walk.fault
  scan_down low (suc j) b = element_at b j and_then λ x. element_at b low and_then λ pivot.
      elim (leq x pivot) [ true ↦ Walk.arrived j | false ↦ scan_down low j b ]

  -- `while (i < j)`
  unfoldable pub partition_loop : ℕ → ℕ → ℕ → ℕ → List T → Walk (ℕ × List T)
  unfolding scan_up scan_down swap
  partition_loop zero low i j b = elim (ltb i j) [
    | true ↦ Walk.out_of_fuel
    | false ↦ Walk.arrived (j, b)
  ]
  partition_loop (suc fuel) low i j b = elim (ltb i j) [
    | true ↦ scan_up (suc (length b)) low i b and_then λ i1. scan_down low j b and_then λ j1.
        (elim (ltb i1 j1) [ true ↦ swap i1 j1 b | false ↦ Walk.arrived b ]) and_then λ b1.
        partition_loop fuel low i1 j1 b1
    | false ↦ Walk.arrived (j, b)
  ]

  unfoldable pub partition : ℕ → ℕ → List T → Walk (ℕ × List T)
  unfolding partition_loop swap
  partition low high b = partition_loop high low low high b and_then λ (p : ℕ × List T).
      swap low p.0 p.1 and_then λ b1. Walk.arrived (p.0, b1)

  -- `QuickSort(aLowest, aHighest)`
  unfoldable pub quick_sort : ℕ → ℕ → ℕ → List T → Walk (List T)
  unfolding partition
  quick_sort zero lowest highest b = elim (ltb lowest highest) [
    | true ↦ Walk.out_of_fuel
    | false ↦ Walk.arrived b
  ]
  quick_sort (suc fuel) lowest highest b = elim (ltb lowest highest) [
    | true ↦ partition lowest highest b and_then λ (p : ℕ × List T).
        quick_sort fuel lowest p.0 p.1 and_then λ b1. quick_sort fuel (p.0 + 1) highest b1
    | false ↦ Walk.arrived b
  ]

  -- `QuickSort()`
  unfoldable pub sort : Array T → Walk (Array T)
  unfolding quick_sort
  sort a = quick_sort a.size 0 a.size a.data_block and_then λ b.
      Walk.arrived (record a { data_block = b })
