-- ===== src/Tests/Arrays.antt =====
-- An array with room, and a full one.
use universal_symbols.Prelude.{
  ℕ, zero, suc, not, leb, ◌+◌, ◌≡◌, refl, [], ◌∷◌, none, some, ◌==◌, if◌then◌else◌, arith,
}
use universal_symbols.ReCore.Array.{Array, Element, add, get}
use universal_symbols.ReCore.Linked.{Walk}
use universal_symbols.ReCore.Array.Sort.{sort}
use universal_symbols.ReCore.Array.Sort.Faults.{sort_faults}
use universal_symbols.ReCore.Array.Sort.Range.{InRange, IsShuffled}
use universal_symbols.ReCore.Array.Sort.Sorted.{IsOrder, IsSorted, sort-IsSorted}
use universal_symbols.ReCore.Array.Growth.{IsArray, add-IsArray, add_faults}

abbrev one_of_two : Array ℕ
one_of_two = record { data_block = 7 ∷ 0 ∷ []; size = 1; capacity = 2 }

add-IsArray_example :
    (a1 : Array ℕ) × (add 8 one_of_two ≡ some a1)
    × (IsArray a1)
    × (a1.size ≡ 1 + 1)
    × (get 0 a1 ≡ (if 0 == 1 then some (Element.element 8) else get 0 one_of_two))
add-IsArray_example =
    add-IsArray 8 one_of_two 0
      (record { allocated = refl; fits = omega arith; nonempty = omega arith }) (omega arith)

abbrev full : Array ℕ
full = record { data_block = 7 ∷ 8 ∷ []; size = 2; capacity = 2 }

add_faults_example : add 9 full ≡ none
add_faults_example =
    add_faults 9 full (record { allocated = refl; fits = omega arith; nonempty = omega arith }) refl

-- Three numbers in a block of four, whose last holds a larger one.
abbrev unsorted : Array ℕ
unsorted = record { data_block = 3 ∷ 1 ∷ 3 ∷ 9 ∷ []; size = 3; capacity = 4 }

sorts : sort leb unsorted ≡ Walk.arrived (record unsorted { data_block = 1 ∷ 3 ∷ 3 ∷ 9 ∷ [] })
unfolding sort
sorts = refl

leb-IsOrder : IsOrder leb
leb-IsOrder = record { total = λ a b h. ground arith; transitive = λ a b c h h1. ground arith }

unsorted-smaller : InRange (λ v. not (leb 9 v)) 0 3 unsorted.data_block
unsorted-smaller zero v from to here = ground (arith, here)
unsorted-smaller (suc zero) v from to here = ground (arith, here)
unsorted-smaller (suc (suc zero)) v from to here = ground (arith, here)
unsorted-smaller (suc (suc (suc i))) v from to here = absurd (omega arith)

sort-IsSorted_example :
    (a1 : Array ℕ) × (sort leb unsorted ≡ Walk.arrived a1)
    × (a1.size ≡ 3)
    × IsShuffled 0 3 (3 ∷ 1 ∷ 3 ∷ 9 ∷ []) a1.data_block
    × IsSorted leb 0 3 a1.data_block
sort-IsSorted_example =
    sort-IsSorted leb leb-IsOrder unsorted 3 9 (omega arith) refl unsorted-smaller

abbrev full_of_large : Array ℕ
full_of_large = record { data_block = 5 ∷ 4 ∷ []; size = 2; capacity = 2 }

full_of_large-InRange : InRange (λ v. leb v 5) 0 2 full_of_large.data_block
full_of_large-InRange zero v from to here = ground (arith, here)
full_of_large-InRange (suc zero) v from to here = ground (arith, here)
full_of_large-InRange (suc (suc i)) v from to here = absurd (omega arith)

sort_faults_example : sort leb full_of_large ≡ Walk.fault
sort_faults_example = sort_faults leb full_of_large 5 refl refl full_of_large-InRange
