-- ===== src/ReCore/Array/Growth.antt =====
-- Additions while there is room, and when there is none.
use universal_symbols.Prelude.{
  ℕ, zero, suc, ◌+◌, ◌*◌, ◌≤◌, ◌<◌, ◌≡◌, refl, true, false, ◌==◌, List, [], ◌∷◌, none, some,
  if◌then◌else◌, leb, ltb, length, get_elem?, set, arith,
}
use universal_symbols.ReCore.Array.{Array, Element, reallocate, store_last, add, get}

pub record IsArray {T : Type 0} (a : Array T) : Type 0 where
  pub allocated : length a.data_block ≡ a.capacity
  pub fits : a.size ≤ a.capacity
  pub nonempty : 0 < a.capacity

module _ {T : Type 0} where
  pub length-set : (xs : List T) (n : ℕ) (v : T) → length (set xs n v) ≡ length xs
  length-set [] n v = refl
  length-set (x ∷ xs) zero v = refl
  length-set (x ∷ xs) (suc n) v = omega (arith, length-set xs n v)

  pub get_elem?-set :
      (xs : List T) (n j : ℕ) (v : T)
      → n < length xs
      → get_elem? (set xs n v) j ≡ (if j == n then some v else get_elem? xs j)
  get_elem?-set [] n j v h = absurd (omega (arith, h))
  get_elem?-set (x ∷ xs) zero zero v h = refl
  get_elem?-set (x ∷ xs) zero (suc j) v h = ground arith
  get_elem?-set (x ∷ xs) (suc n) zero v h = ground arith
  get_elem?-set (x ∷ xs) (suc n) (suc j) v h = ground (arith, get_elem?-set xs n j v)

  -- While there is room, an addition puts the element behind the others, which stay as they are: each
  -- index reads what it read before, but that of the new element. The array stays well formed.
  pub add-IsArray :
      (v : T) (a : Array T) (j : ℕ)
      → IsArray a
      → a.size < a.capacity
      → (a1 : Array T) × (add v a ≡ some a1)
        × (IsArray a1)
        × (a1.size ≡ a.size + 1)
        × (get j a1 ≡ (if j == a.size then some (Element.element v) else get j a))
  unfolding add store_last get
  add-IsArray v a j ok room =
      let not_full : (a.size == a.capacity) ≡ false = ground arith in
      let inside : ltb a.size (length a.data_block) ≡ true = ground (arith, ok.allocated) in
      let within : a.size < length a.data_block = omega (arith, ok.allocated, room) in
      let at = get_elem?-set a.data_block a.size j v within in
      let a1 : Array T = record a { data_block = set a.data_block a.size v; size = a.size + 1 } in
      (
        a1,
        rw (add, not_full, inside) refl,
        record {
          allocated = omega (arith, length-set a.data_block a.size v, ok.allocated);
          fits = omega (arith, room);
          nonempty = ok.nonempty;
        },
        refl,
        ground (arith, at),
      )

  -- Without room an addition reallocates, and the copy reads past the end of the old block.
  pub add_faults : (v : T) (a : Array T) → IsArray a → a.size ≡ a.capacity → add v a ≡ none
  unfolding add reallocate
  add_faults v a ok full =
      let is_full : (a.size == a.capacity) ≡ true = ground (arith, full) in
      let past : leb (a.capacity * 2) (length a.data_block) ≡ false =
        ground (arith, ok.allocated, ok.nonempty) in
      rw (add, is_full, past) refl
