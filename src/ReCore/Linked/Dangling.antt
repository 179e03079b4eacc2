-- ===== src/ReCore/Linked/Dangling.antt =====
-- What becomes of a list whose first element is removed.
use universal_symbols.Prelude.{ℕ, ◌≡◌, refl, Bool, true, none, some, ◌==◌, arith, [], ◌∷◌}
use universal_symbols.Prelude.Map.{Map, find, erase_if}
use universal_symbols.ReCore.Linked.{
  Node, Linked, Walk, load, last_node, get_last, insert, seek_value, delete, link, remove, get_size,
  size_from,
}

find-erase_if_key : {V : Type 0} (at : ℕ) (m : Map V) → find at (erase_if (λ k n. k == at) m) ≡ none
unfolding erase_if
find-erase_if_key at [] = refl
find-erase_if_key at ((k, v) ∷ m) = ground (arith, find-erase_if_key at m)

-- Removing the element that a list starts with ends, but the list still starts with the node that was
-- deleted: whatever is asked of it then, its size, its last element or an insertion, reads that node.
pub remove_dangles :
    {T : Type 0} (equal : T → T → Bool) (v w : T) (nodes : Map (Node T)) (at fresh : ℕ) (n : Node T)
    → find at nodes ≡ some n
    → equal n.value v ≡ true
    → (l : Linked T) × (remove equal v (record { head = some at; nodes = nodes; fresh = fresh })
        ≡ Walk.arrived l)
      × (l.head ≡ some at)
      × (get_size l ≡ Walk.fault)
      × (get_last l ≡ Walk.fault)
      × (insert w l ≡ Walk.fault)
unfolding remove seek_value link delete load get_size size_from get_last last_node insert
remove_dangles {T} equal v w nodes at fresh n here same =
    let l : Linked T = record {
      head = some at;
      nodes = erase_if (λ k n. k == at) nodes;
      fresh = fresh;
    } in
    let gone = find-erase_if_key at nodes in
    (
      l,
      rw (remove, seek_value, load, here, same) (rw (load, here) refl),
      refl,
      rw (get_size, size_from, load, gone) refl,
      rw (get_last, last_node, load, gone) refl,
      rw (insert, last_node, load, gone) refl,
    )
