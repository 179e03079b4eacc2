-- ===== src/ReCore/Linked/Removed.antt =====
-- Removal from lists of REList.h that own their nodes, behind the first node.
use mathlib.Core.Path.{subst, ap}
use universal_symbols.Prelude.{
  Bool-cases, Option-cases, if◌then◌else◌, ℕ, suc, ◌+◌, ◌≡◌, refl, sym, Bool, true, false, Option,
  none, some, [], ◌∷◌, ◌++◌, ◌==◌, ◌∙◌, inl, inr, length, All, append_assoc, length-append, arith,
}
use universal_symbols.Prelude.Map.{
  Map, find, contains, put, erase_if, Distinct, find-put, find-append, find-erase_if-none,
  Distinct-put, Distinct-middle, Distinct-erase_if,
}
use universal_symbols.ReCore.Linked.{
  Node, Linked, Walk, load, steps, seek_value, delete, link, remove,
}
use universal_symbols.ReCore.Linked.Chain.{
  last-cases, Seg-split, Seg-append, Seg-put, Seg-erase, seek_value-Seg,
}
use universal_symbols.ReCore.Linked.Owned.{
  IsList, length-put_old, length-erase, Seg-first, Distinct-without, last_key-last, below-put,
}

module _ {T : Type 0} where
  contains-append :
      (k : ℕ) (xs ys : Map T)
      → contains k (xs ++ ys) ≡ false
      → (contains k xs ≡ false) × (contains k ys ≡ false)
  contains-append k xs ys h = ground (arith, find-append k xs ys)

  -- The node that was found is unlinked from the one before it, and deleted.
  remove_found :
      (equal : T → T → Bool) (v : T) (l : Linked T) (first p k : ℕ) (n o : Node T) (next : Option ℕ)
      → l.head ≡ some first
      → seek_value equal (steps l) v none l.head l ≡ Walk.arrived (some p, some k)
      → find k l.nodes ≡ some o
      → find p l.nodes ≡ some (record n { next = next })
      → remove equal v l
        ≡ Walk.arrived (record l {
          nodes = erase_if (λ j n. j == k) (put p (record n { next = o.next }) l.nodes);
        })
  unfolding remove link delete load
  remove_found equal v l first p k n o next start found here before =
      let found1 : seek_value equal (steps l) v none (some first) l
          ≡ Walk.arrived (some p, some k) =
        subst (λ h. seek_value equal (steps l) v none h l ≡ Walk.arrived (some p, some k)) start
          found in
      rw (remove, start, found1, load, here, link, before)
        (λ i. Walk.arrived (record {
          head = start i;
          nodes = erase_if (λ j n. j == k) (put p (record n { next = o.next }) l.nodes);
          fresh = l.fresh;
        }))

  remove_behind :
      (equal : T → T → Bool) (v : T) (l : Linked T) (xs : Map T) (p : ℕ) (pv : T) (k : ℕ) (w : T)
      (zs : Map T)
      → IsList l ((xs ++ ((p, pv) ∷ [])) ++ ((k, w) ∷ zs))
      → All (λ x. equal x.1 v ≡ false) (xs ++ ((p, pv) ∷ []))
      → equal w v ≡ true
      → (l1 : Linked T) × (remove equal v l ≡ Walk.arrived l1)
        × IsList l1 ((xs ++ ((p, pv) ∷ [])) ++ zs)
  unfolding remove link delete load
  remove_behind equal v l xs p pv k w zs h others same =
      let before = xs ++ ((p, pv) ∷ []) in
      let (mid, front, (next, e, here, rest)) =
        Seg-split l.nodes l.head none before ((k, w) ∷ zs) h.chain in
      let (mid1, front1, (next1, e1, here1, end1)) =
        Seg-split l.nodes l.head mid xs ((p, pv) ∷ []) front in
      let n : Node T = record { value = pv; next = next } in
      let o : Node T = record { value = w; next = next } in
      let moved = put p n l.nodes in
      let (apart, out) = Distinct-without before k w zs h.apart in
      let outside = contains-append k before zs out in
      let apart1 : Distinct (xs ++ ((p, pv) ∷ zs)) =
        subst Distinct (append_assoc xs ((p, pv) ∷ []) zs) apart in
      let around = Distinct-middle xs p pv zs apart1 in
      let other : (p == k) ≡ false =
        let end = contains-append k xs ((p, pv) ∷ []) outside.0 in ground (arith, end.1) in
      let target : find k moved ≡ some o = rw (find-put p k n l.nodes, other) here in
      let linked : find p moved ≡ some n = rw (find-put p p n l.nodes) (ground arith) in
      let front2 = Seg-put p n l.nodes l.head mid1 xs front1 around.0 in
      let rest2 = Seg-put p n l.nodes next none zs rest around.1 in
      let front3 =
        Seg-append moved l.head mid1 next xs ((p, pv) ∷ []) front2 (next, e1, linked, refl) in
      let chain = Seg-append moved l.head next none before zs front3 rest2 in
      let fuel : steps l ≡ length before + suc (suc (length zs)) =
        omega (arith, h.all, length-append before ((k, w) ∷ zs)) in
      let sought =
        seek_value-Seg equal (suc (suc (length zs))) v l none l.head mid before front others in
      let found : seek_value equal (steps l) v none l.head l ≡ Walk.arrived (some p, some k) =
        subst (λ f. seek_value equal f v none l.head l ≡ Walk.arrived (some p, some k)) (sym fuel)
          (sought
            ∙ rw (e, seek_value, load, here, same, last_key-last none xs p pv)
                (λ i. Walk.arrived (some p, e i))) in
      let (first, start) = Seg-first l.nodes l.head none before (k, w) zs h.chain in
      (
        record l { nodes = erase_if (λ j n. j == k) moved },
        remove_found equal v l first p k n o next1 start found here here1,
        record {
          chain = Seg-erase k moved l.head none (before ++ zs) chain out;
          apart = apart;
          owned = Distinct-erase_if (λ j n. j == k) moved (Distinct-put p n l.nodes h.owned);
          all = omega (
            arith,
            length-erase k o moved target (Distinct-put p n l.nodes h.owned),
            length-put_old p n (record { value = pv; next = next1 }) l.nodes here1,
            length-append before zs,
            length-append before ((k, w) ∷ zs),
            h.all,
          );
          below = λ j le.
              find-erase_if-none (λ j n. j == k) j moved
                (below-put p n (record { value = pv; next = next1 }) l.nodes l.fresh here1 h.below j
                  le);
        },
      )

  remove_match :
      (equal : T → T → Bool) (v : T) (l : Linked T) (x : ℕ × T) (xs : Map T) (k : ℕ) (w : T)
      (zs : Map T)
      → IsList l ((x ∷ xs) ++ ((k, w) ∷ zs))
      → All (λ y. equal y.1 v ≡ false) (x ∷ xs)
      → equal w v ≡ true
      → (l1 : Linked T) × (remove equal v l ≡ Walk.arrived l1) × IsList l1 ((x ∷ xs) ++ zs)
  remove_match equal v l x xs k w zs h others same = elim (last-cases (x ∷ xs)) [
    | inl e ↦ cc
    | inr (ys, (p, pv), e) ↦
        subst
          (λ before.
            IsList l (before ++ ((k, w) ∷ zs))
            → All (λ y. equal y.1 v ≡ false) before
            → (l1 : Linked T) × (remove equal v l ≡ Walk.arrived l1) × IsList l1 (before ++ zs))
          (sym e) (λ h1 others1. remove_behind equal v l ys p pv k w zs h1 others1 same) h others
  ]

  remove_missing :
      (equal : T → T → Bool) (v : T) (l : Linked T) (x : ℕ × T) (xs : Map T)
      → IsList l (x ∷ xs)
      → All (λ y. equal y.1 v ≡ false) (x ∷ xs)
      → remove equal v l ≡ Walk.fault
  unfolding remove seek_value load
  remove_missing equal v l x xs h others =
      let (next, start, here, rest) = h.chain in
      let fuel : steps l ≡ length (x ∷ xs) + 1 = omega (arith, h.all) in
      let sought = seek_value-Seg equal 1 v l none l.head none (x ∷ xs) h.chain others in
      let lost : seek_value equal (steps l) v none (some x.0) l ≡ Walk.fault =
        subst (λ f. seek_value equal f v none (some x.0) l ≡ Walk.fault) (sym fuel)
          (subst (λ at. seek_value equal (length (x ∷ xs) + 1) v none at l ≡ Walk.fault) start
            sought) in
      rw (remove, start, lost) refl

  -- The elements without the first that has the value; `none` where no element has it.
  unfoldable pub without_first : (T → T → Bool) → T → Map T → Option (Map T)
  without_first equal v [] = none
  without_first equal v ((k, w) ∷ xs) =
      let rest = without_first equal v xs in
      if equal w v then some xs else elim rest [ none ↦ none | some ys ↦ some ((k, w) ∷ ys) ]

  without_first-none :
      (equal : T → T → Bool) (v : T) (xs : Map T)
      → without_first equal v xs ≡ none
      → All (λ y. equal y.1 v ≡ false) xs
  unfolding without_first
  without_first-none equal v [] h = tt
  without_first-none equal v ((k, w) ∷ xs) h =
      let other : equal w v ≡ false = ground (arith, h) in
      (other, without_first-none equal v xs (ground (arith, h)))

  without_first-some :
      (equal : T → T → Bool) (v : T) (xs ys : Map T)
      → without_first equal v xs ≡ some ys
      → (before : Map T) × (k : ℕ) × (w : T) × (behind : Map T) × (xs ≡ before ++ ((k, w) ∷ behind))
        × (ys ≡ before ++ behind)
        × All (λ y. equal y.1 v ≡ false) before
        × (equal w v ≡ true)
  unfolding without_first
  without_first-some equal v [] ys h = cc
  without_first-some equal v ((k, w) ∷ xs) ys h = elim (Bool-cases (equal w v)) [
    | inl e ↦ ([], k, w, xs, refl, ground (arith, h, e), tt, e)
    | inr e ↦ elim (Option-cases (without_first equal v xs)) [
      | inl e1 ↦ absurd (ground (arith, h, e, e1))
      | inr (zs, e1) ↦
          let (before, j, u, behind, split, kept, others, same) =
            without_first-some equal v xs zs e1 in
          let here : ys ≡ (k, w) ∷ zs = ground (arith, h, e, e1) in
          (
            (k, w) ∷ before,
            j,
            u,
            behind,
            ap (λ l. (k, w) ∷ l) split,
            here ∙ ap (λ l. (k, w) ∷ l) kept,
            (e, others),
            same,
          )
    ]
  ]

  -- What a removal leaves: the list without the first element of that value, or a fault.
  abbrev pub Removes : (T → T → Bool) → T → Linked T → ℕ × T → Option (Map T) → Type 0
  Removes equal v l x none = remove equal v l ≡ Walk.fault
  Removes equal v l x (some ys) =
      (l1 : Linked T) × (remove equal v l ≡ Walk.arrived l1) × IsList l1 (x ∷ ys)

  -- On a list that owns its nodes and whose first element has another value: where an element has the
  -- value, a removal ends, frees the node of the first such element, and leaves the other elements in
  -- their order and at their addresses. Where none has, it runs past the last node and reads through
  -- the null pointer.
  pub remove-IsList :
      (equal : T → T → Bool) (v : T) (l : Linked T) (x : ℕ × T) (xs : Map T)
      → IsList l (x ∷ xs)
      → equal x.1 v ≡ false
      → Removes equal v l x (without_first equal v xs)
  remove-IsList equal v l x xs h other = elim (Option-cases (without_first equal v xs)) [
    | inl e ↦ rw e (remove_missing equal v l x xs h (other, without_first-none equal v xs e))
    | inr (ys, e) ↦
        let (before, k, w, behind, split, kept, others, same) =
          without_first-some equal v xs ys e in
        rw (e, kept)
          (remove_match equal v l x before k w behind (subst (λ zs. IsList l (x ∷ zs)) split h)
            (other, others) same)
  ]
