-- ===== src/Tests/Trees.antt =====
-- A search tree with two keys.
use universal_symbols.Prelude.{ℕ, ◌≡◌, ◌∷◌, [], or_else, arith}
use universal_symbols.Prelude.Map.{find}
use universal_symbols.ReCore.Tree.{Tree, find_entry, insert}
use universal_symbols.ReCore.Tree.Lookup.{
  IsBetween, insert_all, find_entry-insert_all, insert-IsBetween,
}

abbrev two_keys : Tree ℕ
two_keys = Tree.node Tree.leaf 5 50 (Tree.node Tree.leaf 8 80 Tree.leaf)

find_entry-insert_all_example :
    find_entry 8 (insert_all ((6, 60) ∷ (8, 81) ∷ []) two_keys)
    ≡ or_else (find_entry 8 two_keys) (find 8 ((6, 60) ∷ (8, 81) ∷ []))
find_entry-insert_all_example = find_entry-insert_all 8 ((6, 60) ∷ (8, 81) ∷ []) two_keys

two_keys-IsBetween : IsBetween 0 100 two_keys
unfolding IsBetween
two_keys-IsBetween = (omega arith, omega arith, tt, (omega arith, omega arith, tt, tt))

insert-IsBetween_example : IsBetween 0 100 (insert 6 60 two_keys)
insert-IsBetween_example =
    insert-IsBetween 0 100 6 60 two_keys two_keys-IsBetween (omega arith) (omega arith)
