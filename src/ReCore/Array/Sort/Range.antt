-- ===== src/ReCore/Array/Sort/Range.antt =====
-- Elements of a part of a block, and blocks whose elements changed places in that part.
use mathlib.Core.Path.{subst}
use universal_symbols.Prelude.{
  ℕ, zero, suc, ◌+◌, ◌≤◌, ◌<◌, ◌≡◌, refl, sym, ap, ◌∙◌, Bool, true, false, List, [], ◌∷◌, some,
  ◌==◌, ltb, length, get_elem?, set, if◌then◌else◌, arith, Bool-cases, inl, inr,
}
use universal_symbols.ReCore.Array.Growth.{length-set, get_elem?-set}
use universal_symbols.ReCore.Linked.{Walk}
use universal_symbols.ReCore.Array.Sort.{element_at, swap}

pub below : (a b : ℕ) → ltb a b ≡ true → a < b
below a b h = ground arith

pub above : (a b : ℕ) → ltb a b ≡ false → b ≤ a
above a b h = ground arith

module _ {T : Type 0} where
  -- The elements at these indices pass a test.
  abbrev pub InRange : (T → Bool) → ℕ → ℕ → List T → Type 0
  InRange p low high b = (i : ℕ) (v : T) → low ≤ i → i < high → get_elem? b i ≡ some v → p v ≡ true

  -- How many elements pass a test.
  unfoldable pub count : (T → Bool) → List T → ℕ
  count p [] = 0
  count p (x ∷ xs) = (if p x then 1 else 0) + count p xs

  -- The elements between two indices changed places, and nothing else did.
  pub record IsShuffled (low high : ℕ) (b b1 : List T) : Type 0 where
    pub size : length b1 ≡ length b
    pub before : (i : ℕ) → i < low → get_elem? b1 i ≡ get_elem? b i
    pub behind : (i : ℕ) → high ≤ i → get_elem? b1 i ≡ get_elem? b i
    pub counts : (p : T → Bool) → count p b1 ≡ count p b
    pub inside : (p : T → Bool) → InRange p low high b → InRange p low high b1

  pub IsShuffled-refl : (low high : ℕ) (b : List T) → IsShuffled low high b b
  IsShuffled-refl low high b = record {
    size = refl;
    before = λ i h. refl;
    behind = λ i h. refl;
    counts = λ p. refl;
    inside = λ p h. h;
  }

  pub IsShuffled-trans :
      (low high : ℕ) (b b1 b2 : List T)
      → IsShuffled low high b b1
      → IsShuffled low high b1 b2
      → IsShuffled low high b b2
  IsShuffled-trans low high b b1 b2 h h1 = record {
    size = h1.size ∙ h.size;
    before = λ i le. h1.before i le ∙ h.before i le;
    behind = λ i le. h1.behind i le ∙ h.behind i le;
    counts = λ p. h1.counts p ∙ h.counts p;
    inside = λ p all. h1.inside p (h.inside p all);
  }

  -- A shuffle of a smaller part.
  pub IsShuffled-wider :
      (low high low1 high1 : ℕ) (b b1 : List T)
      → low ≤ low1
      → high1 ≤ high
      → IsShuffled low1 high1 b b1
      → IsShuffled low high b b1
  IsShuffled-wider low high low1 high1 b b1 le le1 h = record {
    size = h.size;
    before = λ i out. h.before i (omega arith);
    behind = λ i out. h.behind i (omega arith);
    counts = h.counts;
    inside = λ p all i v from to here. elim (Bool-cases (ltb i low1)) [
      | inl e ↦ all i v from to (sym (h.before i (below i low1 e)) ∙ here)
      | inr e ↦ elim (Bool-cases (ltb i high1)) [
        | inl e1 ↦
            h.inside p (λ j w from1 to1 there. all j w (omega arith) (omega arith) there) i v
              (above i low1 e) (below i high1 e1) here
        | inr e1 ↦ all i v from to (sym (h.behind i (above i high1 e1)) ∙ here)
      ]
    ];
  }

  pub get_elem?-inside : (b : List T) (i : ℕ) → i < length b → (v : T) × (get_elem? b i ≡ some v)
  get_elem?-inside [] i h = absurd (omega (arith, h))
  get_elem?-inside (x ∷ b) zero h = (x, refl)
  get_elem?-inside (x ∷ b) (suc i) h = get_elem?-inside b i (omega arith)

  pub length-get_elem? : (b : List T) (i : ℕ) (v : T) → get_elem? b i ≡ some v → i < length b
  length-get_elem? [] i v h = cc
  length-get_elem? (x ∷ b) zero v h = omega arith
  length-get_elem? (x ∷ b) (suc i) v h = omega (arith, length-get_elem? b i v h)

  count-set :
      (p : T → Bool) (b : List T) (i : ℕ) (x y : T)
      → get_elem? b i ≡ some x
      → count p (set b i y) + (if p x then 1 else 0) ≡ count p b + (if p y then 1 else 0)
  unfolding count
  count-set p [] i x y h = cc
  count-set p (z ∷ b) zero x y h = ground arith
  count-set p (z ∷ b) (suc i) x y h = omega (arith, count-set p b i x y h)

  -- The block after a swap of the elements at two indices.
  abbrev pub swapped : ℕ → ℕ → T → T → List T → List T
  swapped i j x y b = set (set b i y) j x

  pub get_elem?-swapped :
      (i j : ℕ) (x y : T) (b : List T) (k : ℕ)
      → get_elem? b i ≡ some x
      → get_elem? b j ≡ some y
      → get_elem? (swapped i j x y b) k
        ≡ (if k == j then some x else if k == i then some y else get_elem? b k)
  get_elem?-swapped i j x y b k hi hj =
      let first = get_elem?-set b i k y (length-get_elem? b i x hi) in
      let within : j < length (set b i y) =
        omega (arith, length-set b i y, length-get_elem? b j y hj) in
      get_elem?-set (set b i y) j k x within ∙ ap (λ o. if k == j then some x else o) first

  swapped-at :
      (i j : ℕ) (x y : T) (b : List T)
      → get_elem? b i ≡ some x
      → get_elem? b j ≡ some y
      → get_elem? (set b i y) j ≡ some y
  swapped-at i j x y b hi hj =
      let first = get_elem?-set b i j y (length-get_elem? b i x hi) in ground (arith, first, hj)

  pub swapped-IsShuffled :
      (low high i j : ℕ) (x y : T) (b : List T)
      → low ≤ i
      → i < high
      → low ≤ j
      → j < high
      → get_elem? b i ≡ some x
      → get_elem? b j ≡ some y
      → IsShuffled low high b (swapped i j x y b)
  swapped-IsShuffled low high i j x y b il ih jl jh hi hj =
      let out : (k : ℕ)
          → (k == j) ≡ false
          → (k == i) ≡ false
          → get_elem? (swapped i j x y b) k ≡ get_elem? b k =
        λ k e e1. get_elem?-swapped i j x y b k hi hj ∙ rw (e, e1) refl in
      record {
        size = length-set (set b i y) j x ∙ length-set b i y;
        before = λ k less. out k (ground arith) (ground arith);
        behind = λ k more. out k (ground arith) (ground arith);
        counts = λ p. omega (
          arith,
          count-set p b i x y hi,
          count-set p (set b i y) j y x (swapped-at i j x y b hi hj),
        );
        inside = λ p all k v from to here.
            let at = sym (get_elem?-swapped i j x y b k hi hj) ∙ here in
            elim (Bool-cases (k == j)) [
              | inl e ↦
                  let same : x ≡ v = ground (arith, at) in
                  subst (λ w. p w ≡ true) same (all i x il ih hi)
              | inr e ↦ elim (Bool-cases (k == i)) [
                | inl e1 ↦
                    let same : y ≡ v = ground (arith, at) in
                    subst (λ w. p w ≡ true) same (all j y jl jh hj)
                | inr e1 ↦ all k v from to (sym (out k e e1) ∙ here)
              ]
            ];
      }

  pub swap_lem :
      (i j : ℕ) (x y : T) (b : List T)
      → get_elem? b i ≡ some x
      → get_elem? b j ≡ some y
      → swap i j b ≡ Walk.arrived (swapped i j x y b)
  unfolding swap element_at
  swap_lem i j x y b hi hj = rw (swap, element_at, hi, hj) refl
