-- ===== src/ReCore/Array/Sort/Split.antt =====
-- What `Partition` leaves: the pivot between the elements that are not larger and those that are.
use universal_symbols.Prelude.{
  ℕ, zero, suc, ◌+◌, ◌≤◌, ◌<◌, ◌≡◌, refl, sym, ◌∙◌, Bool, true, false, not, List, some, ◌==◌, ltb,
  length, get_elem?, if◌then◌else◌, arith, Bool-cases, inl, inr,
}
use universal_symbols.ReCore.Linked.{Walk}
use universal_symbols.ReCore.Array.Sort.{partition_loop, partition}
use universal_symbols.ReCore.Array.Sort.Range.{
  below, above, InRange, IsShuffled, IsShuffled-refl, IsShuffled-trans, get_elem?-inside,
  length-get_elem?, swapped, get_elem?-swapped, swapped-IsShuffled, swap_lem,
}
use universal_symbols.ReCore.Array.Sort.Partition.{
  InRange-join, InRange-one, InRange-empty, InRange-same, not_end, scan_up_lem, scan_down_lem,
}

module _ {T : Type 0} (leq : T → T → Bool) where
  abbrev pub at_most : T → T → Bool
  at_most p v = leq v p

  abbrev pub more_than : T → T → Bool
  more_than p v = not (leq v p)

  -- Between two turns of the loop.
  record IsAhead (low i j high : ℕ) (p : T) (b : List T) : Type 0 where
    from : low ≤ i
    order : i < j
    to : j ≤ high
    pivot : get_elem? b low ≡ some p
    small : InRange (at_most p) low (i + 1) b
    large : InRange (more_than p) j high b

  -- After the loop; `place` is where the pivot goes.
  record IsSplit (low place high : ℕ) (p : T) (b b1 : List T) : Type 0 where
    from : low ≤ place
    to : place < high
    pivot : get_elem? b1 low ≡ some p
    small : InRange (at_most p) low (place + 1) b1
    large : InRange (more_than p) (place + 1) high b1
    shuffled : IsShuffled low high b b1

  partition_loop_done :
      (fuel low i j : ℕ) (b : List T)
      → ltb i j ≡ false
      → partition_loop leq fuel low i j b ≡ Walk.arrived (j, b)
  unfolding partition_loop
  partition_loop_done zero low i j b e = rw (partition_loop, e) refl
  partition_loop_done (suc fuel) low i j b e = rw (partition_loop, e) refl

  -- The two elements that were found change places.
  IsAhead-swapped :
      (low i j high i1 j1 : ℕ) (p x y : T) (b : List T)
      → IsAhead low i j high p b
      → i < i1
      → i1 < j1
      → j1 < j
      → get_elem? b i1 ≡ some x
      → get_elem? b j1 ≡ some y
      → leq x p ≡ false
      → leq y p ≡ true
      → InRange (at_most p) (i + 1) i1 b
      → InRange (more_than p) (j1 + 1) j b
      → IsAhead low i1 j1 high p (swapped i1 j1 x y b)
  IsAhead-swapped low i j high i1 j1 p x y b h up across down hi hj hx hy below_i above_j =
      let from = h.from in
      let order = h.order in
      let to = h.to in
      let b1 = swapped i1 j1 x y b in
      let at = λ (k : ℕ). get_elem?-swapped i1 j1 x y b k hi hj in
      let same : (k : ℕ) → (k == j1) ≡ false → (k == i1) ≡ false → get_elem? b1 k ≡ get_elem? b k =
        λ k e e1. at k ∙ rw (e, e1) refl in
      let at_i : get_elem? b1 i1 ≡ some y = ground (arith, at i1) in
      let at_j : get_elem? b1 j1 ≡ some x = ground (arith, at j1) in
      record {
        from = omega arith;
        order = across;
        to = omega arith;
        pivot = same low (ground arith) (ground arith) ∙ h.pivot;
        small =
            InRange-join (at_most p) low i1 (i1 + 1) b1
              (InRange-same (at_most p) low i1 b b1 (λ k f t. same k (ground arith) (ground arith))
                (InRange-join (at_most p) low (i + 1) i1 b h.small below_i))
              (InRange-one (at_most p) i1 b1 y at_i hy);
        large =
            InRange-join (more_than p) j1 (j1 + 1) high b1
              (InRange-one (more_than p) j1 b1 x at_j (rw hx refl))
              (InRange-same (more_than p) (j1 + 1) high b b1
                (λ k f t. same k (ground arith) (ground arith))
                (InRange-join (more_than p) (j1 + 1) j high b above_j h.large));
      }

  partition_loop_lem :
      (fuel low i j high : ℕ) (p : T) (b : List T) (h : ℕ) (s : T)
      → IsAhead low i j high p b
      → high ≤ h
      → get_elem? b h ≡ some s
      → leq s p ≡ false
      → j ≤ i + fuel
      → (place : ℕ) × (b1 : List T) × (partition_loop leq fuel low i j b ≡ Walk.arrived (place, b1))
        × IsSplit low place high p b b1
  unfolding partition_loop
  partition_loop_lem zero low i j high p b h s ahead past end large enough =
      absurd (omega (arith, ahead.order, enough))
  partition_loop_lem (suc fuel) low i j high p b h s ahead past end large enough =
      let from = ahead.from in
      let order = ahead.order in
      let to = ahead.to in
      let inside = length-get_elem? b h s end in
      let (w, start) = get_elem?-inside b i (omega arith) in
      let passes = ahead.small i w from (omega arith) start in
      let (i1, x, up, more, le, hi, hx, below_i) =
        scan_up_lem leq (suc (length b)) low i b p h s ahead.pivot end large (omega arith)
          (omega arith) in
      let (j1, y, down, le1, less, hj, hy, above_j) =
        scan_down_lem leq low j b p i w ahead.pivot start passes order (omega arith) in
      let on : ltb i j ≡ true = ground arith in
      elim (Bool-cases (ltb i1 j1)) [
        | inl e ↦
            let across = below i1 j1 e in
            let b1 = swapped i1 j1 x y b in
            let next =
              IsAhead-swapped low i j high i1 j1 p x y b ahead more across less hi hj hx hy below_i
                above_j in
            let moved =
              swapped-IsShuffled low high i1 j1 x y b (omega arith) (omega arith) (omega arith)
                (omega arith) hi hj in
            let (place, b2, ends, split) =
              partition_loop_lem fuel low i1 j1 high p b1 h s next past (moved.behind h past ∙ end)
                large (omega arith) in
            (
              place,
              b2,
              rw (partition_loop, on, up, down, e, swap_lem i1 j1 x y b hi hj) ends,
              record {
                from = split.from;
                to = split.to;
                pivot = split.pivot;
                small = split.small;
                large = split.large;
                shuffled = IsShuffled-trans low high b b1 b2 moved split.shuffled;
              },
            )
        | inr e ↦
            let apart = not_end leq j1 i1 b y x p hj hi hy hx in
            let crossed : j1 < i1 = let le2 = above i1 j1 e in ground arith in
            (
              j1,
              b,
              rw (partition_loop, on, up, down, e) (partition_loop_done fuel low i1 j1 b e),
              record {
                from = omega arith;
                to = omega arith;
                pivot = ahead.pivot;
                small = λ k v f t there.
                    InRange-join (at_most p) low (i + 1) i1 b ahead.small below_i k v f
                      (omega arith) there;
                large = InRange-join (more_than p) (j1 + 1) j high b above_j ahead.large;
                shuffled = IsShuffled-refl low high b;
              },
            )
      ]

  -- Where an element behind the part is larger than its first one, `Partition` ends. The pivot then
  -- stands between the elements that are at most it and those that are more.
  pub partition_lem :
      (low high : ℕ) (p : T) (b : List T) (h : ℕ) (s : T)
      → low < high
      → high ≤ h
      → get_elem? b low ≡ some p
      → leq p p ≡ true
      → get_elem? b h ≡ some s
      → leq s p ≡ false
      → (place : ℕ) × (b1 : List T) × (partition leq low high b ≡ Walk.arrived (place, b1))
        × (low ≤ place)
        × (place < high)
        × (get_elem? b1 place ≡ some p)
        × InRange (at_most p) low place b1
        × InRange (more_than p) (place + 1) high b1
        × IsShuffled low high b b1
  unfolding partition
  partition_lem low high p b h s order past pivot same end large =
      let ahead : IsAhead low low high high p b = record {
        from = omega arith;
        order = order;
        to = omega arith;
        pivot = pivot;
        small = InRange-one (at_most p) low b p pivot same;
        large = InRange-empty (more_than p) high high b (omega arith);
      } in
      let (place, b1, ends, split) =
        partition_loop_lem high low low high high p b h s ahead past end large (omega arith) in
      let from = split.from in
      let to = split.to in
      let size = split.shuffled.size in
      let inside = length-get_elem? b h s end in
      let (y, there) = get_elem?-inside b1 place (omega arith) in
      let passes = split.small place y from (omega arith) there in
      let b2 = swapped low place p y b1 in
      let at : (k : ℕ)
          → get_elem? b2 k
            ≡ (if k == place then some p else if k == low then some y else get_elem? b1 k) =
        λ k. get_elem?-swapped low place p y b1 k split.pivot there in
      let moved =
        swapped-IsShuffled low high low place p y b1 (omega arith) order from to split.pivot
          there in
      (
        place,
        b2,
        rw (partition, ends, swap_lem low place p y b1 split.pivot there) refl,
        from,
        to,
        at place ∙ ground arith,
        λ k v f t here.
            let e : (k == place) ≡ false = ground arith in
            elim (Bool-cases (k == low)) [
              | inl e1 ↦
                  let first : some y ≡ some v = sym (at k ∙ rw (e, e1) refl) ∙ here in
                  let same1 : y ≡ v = ground (arith, first) in rw (← same1) passes
              | inr e1 ↦ split.small k v f (omega arith) (sym (at k ∙ rw (e, e1) refl) ∙ here)
            ],
        InRange-same (more_than p) (place + 1) high b1 b2
            (λ k f t.
              let e : (k == place) ≡ false = ground arith in
              let e1 : (k == low) ≡ false = ground arith in at k ∙ rw (e, e1) refl)
            split.large,
        IsShuffled-trans low high b b1 b2 split.shuffled moved,
      )
