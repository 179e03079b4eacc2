-- ===== src/ReCore/Linked/Owned.antt =====
-- Lists that own their nodes: what the operations of REList.h make of them.
use universal_symbols.Prelude.{
  ℕ, ◌+◌, ◌≤◌, ◌≡◌, refl, false, Option, none, some, [], ◌∷◌, ◌++◌, ◌==◌, length, arith,
}
use universal_symbols.Prelude.Map.{
  Map, find, contains, put, erase_if, Distinct, find-put, find-append,
}
use universal_symbols.ReCore.Linked.{Node, Linked}
use universal_symbols.ReCore.Linked.Chain.{Seg, last_key}

module _ {T : Type 0} where
  -- From `head` a chain leads through all nodes that there are, each once, and a new node gets an
  -- address of its own.
  pub record IsChain (head : Option ℕ) (nodes : Map (Node T)) (fresh : ℕ) (xs : Map T)
      : Type 0 where
    pub chain : Seg nodes head xs none
    pub apart : Distinct xs
    pub owned : Distinct nodes
    pub all : length nodes ≡ length xs
    pub below : (k : ℕ) → fresh ≤ k → find k nodes ≡ none

  -- The list holds the given values in their order, at the given addresses.
  abbrev pub IsList : Linked T → Map T → Type 0
  IsList l xs = IsChain l.head l.nodes l.fresh xs

  pub length-put_new :
      (k : ℕ) (n : Node T) (m : Map (Node T)) → find k m ≡ none → length (put k n m) ≡ length m + 1
  unfolding put
  length-put_new k n [] h = omega arith
  length-put_new k n ((j, w) ∷ m) h = ground (arith, length-put_new k n m)

  pub length-put_old :
      (k : ℕ) (n o : Node T) (m : Map (Node T)) → find k m ≡ some o → length (put k n m) ≡ length m
  unfolding put
  length-put_old k n o [] h = cc
  length-put_old k n o ((j, w) ∷ m) h = ground (arith, length-put_old k n o m)

  erase_missing : (k : ℕ) (m : Map (Node T)) → find k m ≡ none → erase_if (λ j n. j == k) m ≡ m
  unfolding erase_if
  erase_missing k [] h = refl
  erase_missing k ((j, w) ∷ m) h = ground (arith, erase_missing k m)

  pub length-erase :
      (k : ℕ) (o : Node T) (m : Map (Node T))
      → find k m ≡ some o
      → Distinct m
      → length (erase_if (λ j n. j == k) m) + 1 ≡ length m
  unfolding erase_if
  length-erase k o [] h d = cc
  length-erase k o ((j, w) ∷ m) h d = ground (arith, length-erase k o m, erase_missing k m)

  pub Seg-fresh :
      (j : ℕ) (m : Map (Node T)) (at to : Option ℕ) (xs : Map T)
      → Seg m at xs to
      → find j m ≡ none
      → contains j xs ≡ false
  Seg-fresh j m at to [] h new = refl
  Seg-fresh j m at to ((k, v) ∷ xs) (next, e, here, rest) new =
      let later = Seg-fresh j m next to xs rest new in ground (arith, later, here, new)

  pub Seg-first :
      (m : Map (Node T)) (at to : Option ℕ) (xs : Map T) (y : ℕ × T) (ys : Map T)
      → Seg m at (xs ++ (y ∷ ys)) to
      → (first : ℕ) × (at ≡ some first)
  Seg-first m at to [] y ys (next, e, here, rest) = (y.0, e)
  Seg-first m at to (x ∷ xs) y ys (next, e, here, rest) = (x.0, e)

  pub Distinct-last :
      (k : ℕ) (v : T) (xs : Map T)
      → Distinct xs
      → contains k xs ≡ false
      → Distinct (xs ++ ((k, v) ∷ []))
  Distinct-last k v [] d out = (refl, tt)
  Distinct-last k v ((j, w) ∷ xs) d out =
      ground (arith, Distinct-last k v xs, find-append j xs ((k, v) ∷ []))

  pub Distinct-without :
      (xs : Map T) (k : ℕ) (v : T) (ys : Map T)
      → Distinct (xs ++ ((k, v) ∷ ys))
      → Distinct (xs ++ ys) × (contains k (xs ++ ys) ≡ false)
  Distinct-without [] k v ys d = (d.1, d.0)
  Distinct-without ((j, w) ∷ xs) k v ys d =
      ground
        (arith, Distinct-without xs k v ys d.1, find-append j xs ((k, v) ∷ ys), find-append j xs ys)

  pub last_key-last :
      (p : Option ℕ) (xs : Map T) (k : ℕ) (v : T) → last_key p (xs ++ ((k, v) ∷ [])) ≡ some k
  unfolding last_key
  last_key-last p [] k v = refl
  last_key-last p ((j, w) ∷ xs) k v = last_key-last (some j) xs k v

  pub no_nodes : (m : Map (Node T)) → length m ≡ 0 → m ≡ []
  no_nodes [] h = refl
  no_nodes (x ∷ m) h = absurd (omega arith)

  pub below-put :
      (k : ℕ) (n o : Node T) (m : Map (Node T)) (fresh : ℕ)
      → find k m ≡ some o
      → ((j : ℕ) → fresh ≤ j → find j m ≡ none)
      → (j : ℕ) → fresh ≤ j
      → find j (put k n m) ≡ none
  below-put k n o m fresh here below j le =
      let out = below j le in
      let apart : (k == j) ≡ false = ground arith in rw (find-put k j n m, apart, out) refl
