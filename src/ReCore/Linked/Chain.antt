-- ===== src/ReCore/Linked/Chain.antt =====
-- The nodes of a list from one pointer to another, and the loops of REList.h along them.
use universal_symbols.Prelude.{
  ℕ, zero, suc, ◌+◌, ◌≤◌, ◌≡◌, refl, sym, Bool, false, Option, none, some, List, [], ◌∷◌, ◌++◌,
  ◌==◌, ◌⊎◌, inl, inr, length, All, arith,
}
use mathlib.Core.Path.{subst}
use universal_symbols.Prelude.Map.{Map, find, contains, put, erase_if, find-put, find-erase_if}
use universal_symbols.ReCore.Linked.{Node, Linked, Walk, load, last_node, seek_value, size_from}

-- The nodes from one pointer to another, their addresses and their values.
abbrev pub Seg : {T : Type 0} → Map (Node T) → Option ℕ → Map T → Option ℕ → Type 0
Seg m at [] to = at ≡ to
Seg {T} m at ((k, v) ∷ xs) to =
    (next : Option ℕ) × (at ≡ some k)
    × (find k m ≡ some (record { value = v; next = next }))
    × Seg m next xs to

-- A list is empty, or it has a last element.
pub last-cases :
    {A : Type 0} (xs : List A) → (xs ≡ []) ⊎ ((ys : List A) × (z : A) × (xs ≡ ys ++ (z ∷ [])))
last-cases [] = inl refl
last-cases (x ∷ xs) = elim (last-cases xs) [
  | inl e ↦ inr ([], x, rw e refl)
  | inr (ys, z, e) ↦ inr (x ∷ ys, z, rw e refl)
]

-- The pointer to the node before the end of a segment.
unfoldable pub last_key : {T : Type 0} → Option ℕ → Map T → Option ℕ
last_key p [] = p
last_key p ((k, v) ∷ xs) = last_key (some k) xs

module _ {T : Type 0} where
  pub Seg-split :
      (m : Map (Node T)) (at to : Option ℕ) (xs ys : Map T)
      → Seg m at (xs ++ ys) to
      → (mid : Option ℕ) × Seg m at xs mid × Seg m mid ys to
  Seg-split m at to [] ys h = (at, refl, h)
  Seg-split m at to ((k, v) ∷ xs) ys (next, e, here, rest) =
      let (mid, left, right) = Seg-split m next to xs ys rest in (mid, (next, e, here, left), right)

  pub Seg-append :
      (m : Map (Node T)) (at mid to : Option ℕ) (xs ys : Map T)
      → Seg m at xs mid
      → Seg m mid ys to
      → Seg m at (xs ++ ys) to
  Seg-append m at mid to [] ys h right = rw h right
  Seg-append m at mid to ((k, v) ∷ xs) ys (next, e, here, left) right =
      (next, e, here, Seg-append m next mid to xs ys left right)

  -- A node that stands outside a segment may change.
  pub Seg-put :
      (j : ℕ) (n : Node T) (m : Map (Node T)) (at to : Option ℕ) (xs : Map T)
      → Seg m at xs to
      → contains j xs ≡ false
      → Seg (put j n m) at xs to
  Seg-put j n m at to [] h out = h
  Seg-put j n m at to ((k, v) ∷ xs) (next, e, here, rest) out =
      let apart : (j == k) ≡ false = ground arith in
      let later : contains j xs ≡ false = ground arith in
      (next, e, rw (find-put j k n m, apart) here, Seg-put j n m next to xs rest later)

  pub Seg-erase :
      (j : ℕ) (m : Map (Node T)) (at to : Option ℕ) (xs : Map T)
      → Seg m at xs to
      → contains j xs ≡ false
      → Seg (erase_if (λ k n. k == j) m) at xs to
  Seg-erase j m at to [] h out = h
  Seg-erase j m at to ((k, v) ∷ xs) (next, e, here, rest) out =
      let apart : (k == j) ≡ false = ground arith in
      let later : contains j xs ≡ false = ground arith in
      (
        next,
        e,
        find-erase_if (λ i n. i == j) k (record { value = v; next = next }) m here apart,
        Seg-erase j m next to xs rest later,
      )

  node_at :
      (l : Linked T) (at k : ℕ) (n : Node T)
      → some at ≡ some k
      → find k l.nodes ≡ some n
      → find at l.nodes ≡ some n
  node_at l at k n e here = let same : at ≡ k = cc in rw same here

  -- The loop for the last node passes the nodes of a segment that another node follows.
  pub last_node-Seg :
      (fuel : ℕ) (l : Linked T) (at to : ℕ) (xs : Map T)
      → Seg l.nodes (some at) xs (some to)
      → last_node (length xs + fuel) at l ≡ last_node fuel to l
  unfolding last_node load
  last_node-Seg fuel l at to [] h = let e : 0 + fuel ≡ fuel = omega arith in rw e cc
  last_node-Seg fuel l at to ((k, v) ∷ []) (next, e, here, rest) =
      let found = node_at l at k (record { value = v; next = next }) e here in
      let more : suc 0 + fuel ≡ suc (0 + fuel) = omega arith in
      let none_left : 0 + fuel ≡ fuel = omega arith in
      rw (more, last_node, load, found, rest, none_left) refl
  last_node-Seg fuel l at to ((k, v) ∷ (j, w) ∷ xs) (next, e, here, (after, e1, there, rest)) =
      let found = node_at l at k (record { value = v; next = next }) e here in
      let more : suc (length ((j, w) ∷ xs)) + fuel ≡ suc (length ((j, w) ∷ xs) + fuel) =
        omega arith in
      rw (more, last_node, load, found, e1)
        (last_node-Seg fuel l j to ((j, w) ∷ xs) (after, refl, there, rest))

  -- The loop for a value passes the nodes that have other values.
  pub seek_value-Seg :
      (equal : T → T → Bool) (fuel : ℕ) (v : T) (l : Linked T) (previous at to : Option ℕ)
      (xs : Map T)
      → Seg l.nodes at xs to
      → All (λ x. equal x.1 v ≡ false) xs
      → seek_value equal (length xs + fuel) v previous at l
        ≡ seek_value equal fuel v (last_key previous xs) to l
  unfolding seek_value load last_key
  seek_value-Seg equal fuel v l previous at to [] h other =
      let e : 0 + fuel ≡ fuel = omega arith in rw (e, h) refl
  seek_value-Seg equal fuel v l previous at to ((k, w) ∷ xs) (next, e, here, rest) other =
      let more : suc (length xs) + fuel ≡ suc (length xs + fuel) = omega arith in
      let found : load at l ≡ Walk.arrived (record { value = w; next = next }) =
        rw (e, load, here) refl in
      rw (more, seek_value, found, other.0)
        (subst
          (λ p.
            seek_value equal (length xs + fuel) v p next l
            ≡ seek_value equal fuel v (last_key (some k) xs) to l)
          (sym e) (seek_value-Seg equal fuel v l (some k) next to xs rest other.1))

  pub size_from-Seg :
      (fuel : ℕ) (l : Linked T) (at : Option ℕ) (xs : Map T)
      → Seg l.nodes at xs none
      → length xs ≤ fuel
      → size_from fuel at l ≡ Walk.arrived (length xs)
  unfolding size_from load
  size_from-Seg fuel l at [] h enough = rw (h, size_from) refl
  size_from-Seg zero l at ((k, w) ∷ xs) h enough = absurd (omega arith)
  size_from-Seg (suc fuel) l at ((k, w) ∷ xs) (next, e, here, rest) enough =
      let more : length xs + 1 ≡ suc (length xs) = omega arith in
      rw (e, size_from, load, here, size_from-Seg fuel l next xs rest (omega arith), more) refl
