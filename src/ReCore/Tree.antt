-- ===== src/ReCore/Tree.antt =====
-- Libraries/RECore/RETree.h: a search tree over 32-bit keys. The nodes of a tree are owned by one
-- pointer each, so a tree of pointers is a tree of values; `leaf` is the null pointer.
pub mod Lookup
use universal_symbols.Prelude.{ℕ, List, [], ◌∷◌, Option, none, some, ◌>>=◌, if◌then◌else◌, ltb}

pub data Tree {ℓ} (T : Type ℓ) : Type ℓ where
  leaf : Tree T
  node : Tree T → ℕ → T → Tree T → Tree T

pub data Side : Type 0 where
  left right : Side

module _ {ℓ} {T : Type ℓ} where
  -- `operator[]` and `FindEntry`: the value at the entry.
  unfoldable pub find_entry : ℕ → Tree T → Option T
  find_entry key Tree.leaf = none
  find_entry key (Tree.node l first value r) =
      let in_right = find_entry key r in
      let in_left = find_entry key l in
      if ltb first key then in_right else if ltb key first then in_left else some value

  -- The way from the root to the node that gets the new child, or `none` where the key is there.
  unfoldable pub find_placement : ℕ → Tree T → Option (List Side)
  find_placement key Tree.leaf = none
  find_placement key (Tree.node l first value r) =
      let in_right : Option (List Side) = elim r [
        | Tree.leaf ↦ some []
        | Tree.node rl rf rv rr ↦ find_placement key r >>= λ way. some (Side.right ∷ way)
      ] in
      let in_left : Option (List Side) = elim l [
        | Tree.leaf ↦ some []
        | Tree.node ll lf lv lr ↦ find_placement key l >>= λ way. some (Side.left ∷ way)
      ] in
      if ltb first key then in_right else if ltb key first then in_left else none

  -- The assignment to `pRight` or `pLeft` of the node at the end of the way.
  unfoldable pub attach : ℕ → T → List Side → Tree T → Tree T
  attach key v way Tree.leaf = Tree.leaf
  attach key v [] (Tree.node l first value r) =
      let child = Tree.node Tree.leaf key v Tree.leaf in
      if ltb first key
      then Tree.node l first value child
      else if ltb key first
      then Tree.node child first value r
      else Tree.node l first value r
  attach key v (Side.right ∷ way) (Tree.node l first value r) =
      Tree.node l first value (attach key v way r)
  attach key v (Side.left ∷ way) (Tree.node l first value r) =
      Tree.node (attach key v way l) first value r

  unfoldable pub insert : ℕ → T → Tree T → Tree T
  unfolding find_placement attach
  insert key v Tree.leaf = Tree.node Tree.leaf key v Tree.leaf
  insert key v t = elim (find_placement key t) [ none ↦ t | some way ↦ attach key v way t ]
