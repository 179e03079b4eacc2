-- ===== src/Tests/Lists.antt =====
-- A list of two elements.
use universal_symbols.Prelude.{ℕ, ◌≡◌, refl, ◌==◌, none, some, [], ◌∷◌, arith}
use universal_symbols.Prelude.Map.{Map}
use universal_symbols.ReCore.Linked.{Node, Linked, Walk, remove, get_size, get_last, insert, clear}
use universal_symbols.ReCore.Linked.Iterators.{begin, range_for}
use universal_symbols.ReCore.Linked.Kept.{insert-IsList, clear_lem}
use universal_symbols.ReCore.Linked.Owned.{IsList}
use universal_symbols.ReCore.Linked.Removed.{Removes, without_first, remove-IsList}
use universal_symbols.ReCore.Linked.Dangling.{remove_dangles}

abbrev two_nodes : Map (Node ℕ)
two_nodes = (1, record { value = 7; next = some 2 }) ∷ (2, record { value = 8; next = none }) ∷ []

remove_dangles_example :
    (l : Linked ℕ) × (remove ◌==◌ 7 (record { head = some 1; nodes = two_nodes; fresh = 3 })
      ≡ Walk.arrived l)
    × (l.head ≡ some 1)
    × (get_size l ≡ Walk.fault)
    × (get_last l ≡ Walk.fault)
    × (insert 9 l ≡ Walk.fault)
remove_dangles_example =
    remove_dangles ◌==◌ 7 9 two_nodes 1 3 (record { value = 7; next = some 2 }) refl refl

-- Two nodes that a list owns, and its elements.
abbrev two_elements : Linked ℕ
two_elements = record { head = some 1; nodes = two_nodes; fresh = 3 }

two_elements-IsList : IsList two_elements ((1, 7) ∷ (2, 8) ∷ [])
two_elements-IsList = record {
  chain = (some 2, refl, refl, (none, refl, refl, refl));
  apart = (refl, (refl, tt));
  owned = (refl, (refl, tt));
  all = refl;
  below = λ k le. ground arith;
}

insert-IsList_example :
    (l1 : Linked ℕ) × (insert 9 two_elements ≡ Walk.arrived l1)
    × IsList l1 ((1, 7) ∷ (2, 8) ∷ (3, 9) ∷ [])
insert-IsList_example = insert-IsList 9 two_elements ((1, 7) ∷ (2, 8) ∷ []) two_elements-IsList

clear_lem_example :
    clear two_elements ≡ Walk.arrived (record { head = none; nodes = []; fresh = 3 })
clear_lem_example = clear_lem two_elements ((1, 7) ∷ (2, 8) ∷ []) two_elements-IsList

remove-IsList_example : Removes ◌==◌ 8 two_elements (1, 7) (some [])
unfolding without_first
remove-IsList_example =
    remove-IsList ◌==◌ 8 two_elements (1, 7) ((2, 8) ∷ []) two_elements-IsList refl

meets_both : range_for 3 (begin two_elements) two_elements ≡ Walk.arrived (7 ∷ 8 ∷ [])
unfolding range_for begin
meets_both = refl
