-- ===== src/ReCore/Linked/Kept.antt =====
-- Insertion, clearing and the questions of REList.h on lists that own their nodes.
use mathlib.Core.Path.{subst}
use universal_symbols.Prelude.{
  ℕ, zero, suc, ◌+◌, ◌≤◌, ◌≡◌, refl, sym, ap, false, Option, none, some, [], ◌∷◌, ◌++◌, ◌==◌, ◌∙◌,
  inl, inr, length, length-append, arith,
}
use universal_symbols.Prelude.Map.{
  Map, find, put, erase_if, find-put, find-erase_if-none, Distinct-put, Distinct-middle,
  Distinct-erase_if,
}
use universal_symbols.ReCore.Linked.{
  Node, Linked, Walk, load, steps, last_node, get_last, allocate, insert, delete, clear_from, clear,
  get_size,
}
use universal_symbols.ReCore.Linked.Chain.{
  Seg, last-cases, Seg-split, Seg-append, Seg-put, Seg-erase, last_node-Seg, size_from-Seg,
}
use universal_symbols.ReCore.Linked.Owned.{
  IsChain, IsList, length-put_new, length-put_old, length-erase, Seg-fresh, Seg-first,
  Distinct-last, no_nodes, below-put,
}

module _ {T : Type 0} where
  -- The loop ends at the node of the last value.
  last_node_lem :
      (l : Linked T) (xs : Map T) (k : ℕ) (v : T) (first : ℕ)
      → IsList l (xs ++ ((k, v) ∷ []))
      → l.head ≡ some first
      → last_node (steps l) first l ≡ Walk.arrived k
  unfolding last_node load
  last_node_lem l xs k v first h start =
      let (mid, front, (next, e, here, end)) =
        Seg-split l.nodes l.head none xs ((k, v) ∷ []) h.chain in
      let fuel : steps l ≡ length xs + 2 = omega (arith, h.all, length-append xs ((k, v) ∷ [])) in
      let front1 : Seg l.nodes (some first) xs (some k) = rw (sym start, sym e) front in
      let reached : last_node 2 k l ≡ Walk.arrived k = rw (last_node, load, here, end) refl in
      subst (λ n. last_node n first l ≡ Walk.arrived k) (sym fuel)
        (last_node-Seg 2 l first k xs front1 ∙ reached)

  insert_empty :
      (v : T) (l : Linked T)
      → IsList l []
      → (l1 : Linked T) × (insert v l ≡ Walk.arrived l1) × IsList l1 ((l.fresh, v) ∷ [])
  unfolding insert allocate
  insert_empty v l h =
      let n : Node T = record { value = v; next = none } in
      let new = h.below l.fresh (omega arith) in
      let here : find l.fresh (put l.fresh n l.nodes) ≡ some n =
        rw (find-put l.fresh l.fresh n l.nodes) (ground arith) in
      (
        record (allocate v l) { head = some l.fresh },
        rw (insert, h.chain) refl,
        record {
          chain = (none, refl, here, refl);
          apart = (refl, tt);
          owned = Distinct-put l.fresh n l.nodes h.owned;
          all = omega (arith, length-put_new l.fresh n l.nodes new, h.all);
          below = λ j le.
              let apart : (l.fresh == j) ≡ false = ground arith in
              rw (find-put l.fresh j n l.nodes, apart) (h.below j (omega arith));
        },
      )

  insert_behind :
      (v : T) (l : Linked T) (xs : Map T) (k : ℕ) (w : T)
      → IsList l (xs ++ ((k, w) ∷ []))
      → (l1 : Linked T) × (insert v l ≡ Walk.arrived l1)
        × IsList l1 ((xs ++ ((k, w) ∷ [])) ++ ((l.fresh, v) ∷ []))
  unfolding insert allocate load
  insert_behind v l xs k w h =
      let at = l.fresh in
      let all = xs ++ ((k, w) ∷ []) in
      let n : Node T = record { value = v; next = none } in
      let m : Node T = record { value = w; next = some at } in
      let grown = put at n l.nodes in
      let new = h.below at (omega arith) in
      let (first, start) = Seg-first l.nodes l.head none xs (k, w) [] h.chain in
      let (mid, front, (next, e, here, end)) =
        Seg-split l.nodes l.head none xs ((k, w) ∷ []) h.chain in
      let out = Distinct-middle xs k w [] h.apart in
      let out_all = Seg-fresh at l.nodes l.head none all h.chain new in
      let out_front = Seg-fresh at l.nodes l.head mid xs front new in
      let apart : (at == k) ≡ false = ground (arith, new, here) in
      let apart1 : (k == at) ≡ false = ground arith in
      let here1 : find k grown ≡ some (record { value = w; next = next }) =
        rw (find-put at k n l.nodes, apart) here in
      let here2 : find k (put k m grown) ≡ some m = rw (find-put k k m grown) (ground arith) in
      let fresh2 : find at (put k m grown) ≡ some n =
        rw (find-put k at m grown, apart1, find-put at at n l.nodes) (ground arith) in
      let front1 =
        Seg-put k m grown l.head mid xs (Seg-put at n l.nodes l.head mid xs front out_front)
          out.0 in
      let none_above : (j : ℕ) → at + 1 ≤ j → find j grown ≡ none = λ j le.
        let other : (at == j) ≡ false = ground arith in
        rw (find-put at j n l.nodes, other) (h.below j (omega arith)) in
      (
        record { head = l.head; nodes = put k m grown; fresh = at + 1 },
        rw (insert, start, last_node_lem l xs k w first h start, load, here)
            (λ i. Walk.arrived (record { head = start i; nodes = put k m grown; fresh = at + 1 })),
        record {
          chain =
              Seg-append (put k m grown) l.head (some at) none all ((at, v) ∷ [])
                (Seg-append (put k m grown) l.head mid (some at) xs ((k, w) ∷ []) front1
                  (some at, e, here2, refl))
                (none, refl, fresh2, refl);
          apart = Distinct-last at v all h.apart out_all;
          owned = Distinct-put k m grown (Distinct-put at n l.nodes h.owned);
          all = omega (
            arith,
            length-put_old k m (record { value = w; next = next }) grown here1,
            length-put_new at n l.nodes new,
            length-append all ((at, v) ∷ []),
            h.all,
          );
          below = below-put k m (record { value = w; next = next }) grown (at + 1) here1 none_above;
        },
      )

  -- Inserting at the end ends, and the list then holds the new value behind the others, which stay at
  -- their addresses.
  pub insert-IsList :
      (v : T) (l : Linked T) (xs : Map T)
      → IsList l xs
      → (l1 : Linked T) × (insert v l ≡ Walk.arrived l1) × IsList l1 (xs ++ ((l.fresh, v) ∷ []))
  insert-IsList v l xs h = elim (last-cases xs) [
    | inl e ↦
        subst
          (λ ys.
            IsList l ys
            → (l1 : Linked T) × (insert v l ≡ Walk.arrived l1)
              × IsList l1 (ys ++ ((l.fresh, v) ∷ [])))
          (sym e) (insert_empty v l) h
    | inr (ys, (k, w), e) ↦
        subst
          (λ zs.
            IsList l zs
            → (l1 : Linked T) × (insert v l ≡ Walk.arrived l1)
              × IsList l1 (zs ++ ((l.fresh, v) ∷ [])))
          (sym e) (insert_behind v l ys k w) h
  ]

  -- On a list that holds a value, the last value and the number of the values are returned.
  pub get_last_lem :
      (l : Linked T) (xs : Map T) (k : ℕ) (v : T)
      → IsList l (xs ++ ((k, v) ∷ []))
      → (get_last l ≡ Walk.arrived v) × (get_size l ≡ Walk.arrived (length xs + 1))
  unfolding get_last load get_size
  get_last_lem l xs k v h =
      let (first, start) = Seg-first l.nodes l.head none xs (k, v) [] h.chain in
      let (mid, front, (next, e, here, end)) =
        Seg-split l.nodes l.head none xs ((k, v) ∷ []) h.chain in
      let size : length (xs ++ ((k, v) ∷ [])) ≡ length xs + 1 =
        omega (arith, length-append xs ((k, v) ∷ [])) in
      (
        rw (get_last, start, last_node_lem l xs k v first h start, load, here) refl,
        size_from-Seg (steps l) l l.head (xs ++ ((k, v) ∷ [])) h.chain (omega (arith, h.all))
            ∙ ap Walk.arrived size,
      )

  clear_from_lem :
      (fuel : ℕ) (at : Option ℕ) (l : Linked T) (xs : Map T)
      → IsChain at l.nodes l.fresh xs
      → length xs ≤ fuel
      → clear_from fuel at l ≡ Walk.arrived (record l { nodes = [] })
  unfolding clear_from load delete
  clear_from_lem fuel at l [] h enough =
      let empty = no_nodes l.nodes h.all in
      rw (h.chain, clear_from) (λ i. Walk.arrived (record l { nodes = empty i }))
  clear_from_lem zero at l ((k, v) ∷ xs) h enough = absurd (omega arith)
  clear_from_lem (suc fuel) at l ((k, v) ∷ xs) h enough =
      let (next, e, here, rest) = h.chain in
      let smaller = erase_if (λ j n. j == k) l.nodes in
      let kept : IsChain next smaller l.fresh xs = record {
        chain = Seg-erase k l.nodes next none xs rest h.apart.0;
        apart = h.apart.1;
        owned = Distinct-erase_if (λ j n. j == k) l.nodes h.owned;
        all =
            omega (
              arith,
              length-erase k (record { value = v; next = next }) l.nodes here h.owned,
              h.all,
            );
        below = λ j le. find-erase_if-none (λ j n. j == k) j l.nodes (h.below j le);
      } in
      rw (e, clear_from, load, here)
        (clear_from_lem fuel next (record l { nodes = smaller }) xs kept (omega arith))

  -- Clearing ends, frees every node and leaves the empty list.
  pub clear_lem :
      (l : Linked T) (xs : Map T)
      → IsList l xs
      → clear l ≡ Walk.arrived (record { head = none; nodes = []; fresh = l.fresh })
  unfolding clear
  clear_lem l xs h = rw (clear, clear_from_lem (steps l) l.head l xs h (omega (arith, h.all))) refl
