-- ===== src/ReCore/Linked/Iterators.antt =====
-- The iterators of REList.h, and a range-based `for` over a list.
use universal_symbols.Prelude.{
  ℕ, zero, suc, ◌≤◌, ◌≡◌, refl, Bool, true, false, Option, none, some, List, [], ◌∷◌, map, ◌==◌,
  length, arith,
}
use universal_symbols.Prelude.Map.{Map}
use universal_symbols.ReCore.Linked.{Node, Linked, Walk, load, steps, ◌and_then◌}
use universal_symbols.ReCore.Linked.Chain.{Seg}
use universal_symbols.ReCore.Linked.Owned.{IsList}

abbrev pub Iterator : Type 0
Iterator = Option ℕ

-- Equality of the two pointers.
unfoldable pub iterator_eq : Iterator → Iterator → Bool
iterator_eq none none = true
iterator_eq none (some b) = false
iterator_eq (some a) none = false
iterator_eq (some a) (some b) = a == b

abbrev pub end : Iterator
end = none

module _ {T : Type 0} where
  unfoldable pub begin : Linked T → Iterator
  begin l = l.head

  -- `operator++`
  unfoldable pub increment : Iterator → Linked T → Walk Iterator
  unfolding load
  increment at l = load at l and_then λ n. Walk.arrived n.next

  -- `operator*`
  unfoldable pub dereference : Iterator → Linked T → Walk T
  unfolding load
  dereference at l = load at l and_then λ n. Walk.arrived n.value

  -- The values that a loop from the iterator to the end meets.
  unfoldable pub range_for : ℕ → Iterator → Linked T → Walk (List T)
  unfolding iterator_eq increment dereference
  range_for zero at l = elim (iterator_eq at end) [
    | true ↦ Walk.arrived []
    | false ↦ Walk.out_of_fuel
  ]
  range_for (suc fuel) at l = elim (iterator_eq at end) [
    | true ↦ Walk.arrived []
    | false ↦ dereference at l and_then λ v.
        increment at l and_then λ next. range_for fuel next l and_then λ vs. Walk.arrived (v ∷ vs)
  ]

  range_for-Seg :
      (fuel : ℕ) (at : Iterator) (l : Linked T) (xs : Map T)
      → Seg l.nodes at xs none
      → length xs ≤ fuel
      → range_for fuel at l ≡ Walk.arrived (map (λ (x : ℕ × T). x.1) xs)
  unfolding range_for iterator_eq increment dereference load
  range_for-Seg zero at l [] h enough = rw (h, range_for) refl
  range_for-Seg (suc fuel) at l [] h enough = rw (h, range_for) refl
  range_for-Seg zero at l ((k, v) ∷ xs) h enough = absurd (omega arith)
  range_for-Seg (suc fuel) at l ((k, v) ∷ xs) (next, e, here, rest) enough =
      let n : Node T = record { value = v; next = next } in
      let loaded : load at l ≡ Walk.arrived n = rw (e, load, here) refl in
      let value : dereference at l ≡ Walk.arrived v = rw (dereference, loaded) refl in
      let after : increment at l ≡ Walk.arrived next = rw (increment, loaded) refl in
      let more : iterator_eq at end ≡ false = rw e refl in
      rw (range_for, more, value, after, range_for-Seg fuel next l xs rest (omega arith)) refl

  -- A range-based `for` over a list that owns its nodes ends, and meets its values in their order.
  pub range_for_lem :
      (l : Linked T) (xs : Map T)
      → IsList l xs
      → range_for (steps l) (begin l) l ≡ Walk.arrived (map (λ (x : ℕ × T). x.1) xs)
  unfolding begin
  range_for_lem l xs h = range_for-Seg (steps l) l.head l xs h.chain (omega (arith, h.all))
