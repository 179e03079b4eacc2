-- ===== src/ReCore/Tree/Lookup.antt =====
-- What a search finds after insertions, and the order of the keys.
use universal_symbols.Prelude.{
  ℕ, ◌<◌, ◌≡◌, refl, ap, ◌∙◌, true, false, List, [], ◌∷◌, Option, none, some, ◌>>=◌, ◌==◌, ==_iff,
  or_else, if◌then◌else◌, ltb, arith, Bool-cases, inl, inr,
}
use universal_symbols.Prelude.Map.{Map, find}
use universal_symbols.ReCore.Tree.{Tree, Side, find_entry, find_placement, attach, insert}

module _ {ℓ} {T : Type ℓ} where
  grown : ℕ → T → Tree T → Option (List Side) → Tree T
  grown k v t way = elim way [ none ↦ t | some way ↦ attach k v way t ]

  grown-right :
      (k : ℕ) (v : T) (l : Tree T) (first : ℕ) (value : T) (r : Tree T) (way : Option (List Side))
      → grown k v (Tree.node l first value r) (way >>= λ w. some (Side.right ∷ w))
        ≡ Tree.node l first value (grown k v r way)
  unfolding grown attach
  grown-right k v l first value r none = refl
  grown-right k v l first value r (some way) = refl

  grown-left :
      (k : ℕ) (v : T) (l : Tree T) (first : ℕ) (value : T) (r : Tree T) (way : Option (List Side))
      → grown k v (Tree.node l first value r) (way >>= λ w. some (Side.left ∷ w))
        ≡ Tree.node (grown k v l way) first value r
  unfolding grown attach
  grown-left k v l first value r none = refl
  grown-left k v l first value r (some way) = refl

  right_side :
      (k : ℕ) (v : T) (l : Tree T) (first : ℕ) (value : T) (r : Tree T)
      → ltb first k ≡ true
      → insert k v (Tree.node l first value r) ≡ Tree.node l first value (insert k v r)
  unfolding insert grown find_placement attach
  right_side k v l first value Tree.leaf above = rw (insert, above) (rw (attach, above) refl)
  right_side k v l first value (Tree.node rl rf rv rr) above =
      let t = Tree.node rl rf rv rr in
      rw (insert, above) (grown-right k v l first value t (find_placement k t))

  left_side :
      (k : ℕ) (v : T) (l : Tree T) (first : ℕ) (value : T) (r : Tree T)
      → ltb first k ≡ false
      → ltb k first ≡ true
      → insert k v (Tree.node l first value r) ≡ Tree.node (insert k v l) first value r
  unfolding insert grown find_placement attach
  left_side k v Tree.leaf first value r not_above below =
      rw (insert, not_above, below) (rw (attach, not_above, below) refl)
  left_side k v (Tree.node ll lf lv lr) first value r not_above below =
      let t = Tree.node ll lf lv lr in
      rw (insert, not_above, below) (grown-left k v t first value r (find_placement k t))

  -- The way and the assignment together go down as one recursion does.
  pub insert-node :
      (k : ℕ) (v : T) (l : Tree T) (first : ℕ) (value : T) (r : Tree T)
      → insert k v (Tree.node l first value r) ≡ (
          if ltb first k
          then Tree.node l first value (insert k v r)
          else if ltb k first
          then Tree.node (insert k v l) first value r
          else Tree.node l first value r)
  unfolding insert find_placement
  insert-node k v l first value r = elim (Bool-cases (ltb first k)) [
    | inl above ↦ right_side k v l first value r above ∙ rw above refl
    | inr not_above ↦ elim (Bool-cases (ltb k first)) [
      | inl below ↦ left_side k v l first value r not_above below ∙ rw (not_above, below) refl
      | inr here ↦ rw (insert, not_above, here) refl
    ]
  ]

  -- After an insertion a search finds the new value under its key, unless the key was there already,
  -- whose value stays; under every other key it finds what it found before.
  pub find_entry-insert :
      (j k : ℕ) (v : T) (t : Tree T)
      → find_entry j (insert k v t)
        ≡ (if j == k then or_else (find_entry k t) (some v) else find_entry j t)
  unfolding find_entry insert
  find_entry-insert j k v Tree.leaf = ground arith
  find_entry-insert j k v (Tree.node l first value r) =
      let down = insert-node k v l first value r in
      let in_right = find_entry-insert j k v r in
      let in_left = find_entry-insert j k v l in rw down (ground (arith, in_right, in_left))

  -- The keys of a search tree stand between the bounds, and in order.
  unfoldable pub IsBetween : ℕ → ℕ → Tree T → Type 0
  IsBetween low high Tree.leaf = Unit
  IsBetween low high (Tree.node l first value r) =
      (low < first) × (first < high) × IsBetween low first l × IsBetween first high r

  -- An insertion of a key between the bounds leaves a search tree a search tree.
  pub insert-IsBetween :
      (low high k : ℕ) (v : T) (t : Tree T)
      → IsBetween low high t
      → low < k
      → k < high
      → IsBetween low high (insert k v t)
  unfolding IsBetween insert
  insert-IsBetween low high k v Tree.leaf h above below = (above, below, tt, tt)
  insert-IsBetween low high k v (Tree.node l first value r) h above below =
      let down = insert-node k v l first value r in
      elim (Bool-cases (ltb first k)) [
        | inl greater ↦
            let rest = insert-IsBetween first high k v r h.3 (ground (arith, greater)) below in
            rw (down, greater) (h.0, h.1, h.2, rest)
        | inr not_greater ↦ elim (Bool-cases (ltb k first)) [
          | inl smaller ↦
              let rest = insert-IsBetween low first k v l h.2 above (ground (arith, smaller)) in
              rw (down, not_greater, smaller) (h.0, h.1, rest, h.3)
          | inr same ↦ rw (down, not_greater, same) h
        ]
      ]

  -- Insertions in a row.
  unfoldable pub insert_all : Map T → Tree T → Tree T
  unfolding insert
  insert_all [] t = t
  insert_all ((k, v) ∷ ps) t = insert_all ps (insert k v t)

  -- Searching a tree after insertions in a row finds the first value that was inserted under the key,
  -- unless the key was there before: the tree refines the list of the insertions.
  pub find_entry-insert_all :
      (j : ℕ) (ps : Map T) (t : Tree T)
      → find_entry j (insert_all ps t) ≡ or_else (find_entry j t) (find j ps)
  unfolding insert_all
  find_entry-insert_all j [] t = ground arith
  find_entry-insert_all j ((k, v) ∷ ps) t =
      let rest = find_entry-insert_all j ps (insert k v t) in
      let here = find_entry-insert j k v t in
      elim (Bool-cases (k == j)) [
        | inl hit ↦
            let same : k ≡ j = (==_iff k j).0 hit in
            let found : find_entry k t ≡ find_entry j t = ap (λ n. find_entry n t) same in
            rw (rest, here) (ground (arith, found, hit))
        | inr miss ↦ rw (rest, here) (ground (arith, miss))
      ]
