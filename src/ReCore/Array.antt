-- ===== src/ReCore/Array.antt =====
-- Libraries/RECore/REArray.h: a block of elements that should grow. `none` is an
-- access outside a block.
pub mod Growth
pub mod Sort
use universal_symbols.Prelude.{
  ℕ, ◌+◌, ◌*◌, ◌==◌, List, [], ◌∷◌, Option, none, some, ◌>>=◌, if◌then◌else◌, leb, ltb, length,
  get_elem?, set, take, replicate,
}

pub record Array (T : Type 0) : Type 0 where
  pub data_block : List T
  pub size : ℕ
  pub capacity : ℕ

-- What `operator[]` does: an exception, or the element.
pub data Element (T : Type 0) : Type 0 where
  out_of_range : Element T
  element : T → Element T

module _ {T : Type 0} where
  -- `cleared` is the element of zero bytes.
  unfoldable pub new : T → Array T
  unfolding replicate
  new cleared = record { data_block = replicate 4 cleared; size = 0; capacity = 4 }

  -- `memmove` copies as many elements as the new block has, from the old block.
  unfoldable pub reallocate : ℕ → Array T → Option (Array T)
  reallocate multiplier a =
      let capacity = a.capacity * multiplier in
      if leb capacity (length a.data_block)
      then some (record a { data_block = take capacity a.data_block; capacity = capacity })
      else none

  unfoldable pub store_last : T → Array T → Option (Array T)
  store_last v a =
      if ltb a.size (length a.data_block)
      then some (record a { data_block = set a.data_block a.size v; size = a.size + 1 })
      else none

  unfoldable pub add : T → Array T → Option (Array T)
  unfolding reallocate store_last
  add v a = (if a.size == a.capacity then reallocate 2 a else some a) >>= λ a1. store_last v a1

  unfoldable pub get : ℕ → Array T → Option (Element T)
  get index a =
      if leb a.size index
      then some Element.out_of_range
      else get_elem? a.data_block index >>= λ v. some (Element.element v)
