-- ===== src/Prelude/Map.antt =====
-- `std::unordered_map` with integer keys. The order of the list is the order in which the program
-- iterates; the standard leaves it open, so the theorems hold for every order.
use Prim.Native.Nat.{ℕ}
use mathlib.Core.Path.{◌≡◌, refl}
use mathlib.Core.Bool.{Bool, false}
use mathlib.Core.Option.{Option, none, some}
use mathlib.Core.List.{List, [], ◌∷◌, ◌++◌}
use native.Mathlib.Omega.{arith}
use mathlib.Core.Logic.{inl, inr}
use universal_symbols.Prelude.Tests.{◌==◌, if◌then◌else◌, or_else, is_some, Bool-cases}

abbrev pub Map {ℓ} : Type ℓ → Type ℓ
Map V = List (ℕ × V)

module _ {ℓ} {V : Type ℓ} where
  abbrev pub find : ℕ → Map V → Option V
  find k [] = none
  find k ((j, v) ∷ m) = if j == k then some v else find k m

  abbrev pub contains : ℕ → Map V → Bool
  contains k m = is_some (find k m)

  -- `m[k] = v`: an entry that is there keeps its place.
  unfoldable pub put : ℕ → V → Map V → Map V
  put k v [] = (k, v) ∷ []
  put k v ((j, w) ∷ m) = if j == k then (k, v) ∷ m else (j, w) ∷ put k v m

  -- `std::erase_if`
  unfoldable pub erase_if : (ℕ → V → Bool) → Map V → Map V
  erase_if p [] = []
  erase_if p ((j, w) ∷ m) = if p j w then erase_if p m else (j, w) ∷ erase_if p m

  -- Every key stands in one entry.
  abbrev pub Distinct : Map V → Type 0
  Distinct [] = Unit
  Distinct ((k, v) ∷ m) = (contains k m ≡ false) × Distinct m

  pub find-put :
      (k j : ℕ) (v : V) (m : Map V) → find j (put k v m) ≡ (if k == j then some v else find j m)
  unfolding put
  find-put k j v [] = refl
  find-put k j v ((i, w) ∷ m) = ground (arith, find-put k j v m)

  pub find-append : (k : ℕ) (xs ys : Map V) → find k (xs ++ ys) ≡ or_else (find k xs) (find k ys)
  find-append k [] ys = refl
  find-append k ((j, v) ∷ xs) ys = ground (arith, find-append k xs ys)

  pub Distinct-put : (k : ℕ) (v : V) (m : Map V) → Distinct m → Distinct (put k v m)
  unfolding put
  Distinct-put k v [] d = (refl, tt)
  Distinct-put k v ((j, w) ∷ m) d = ground (arith, Distinct-put k v m, find-put k j v m)

  -- The keys of a middle entry, of what is before it and of what is behind it are apart.
  pub Distinct-middle :
      (xs : Map V) (k : ℕ) (v : V) (ys : Map V)
      → Distinct (xs ++ ((k, v) ∷ ys))
      → (contains k xs ≡ false) × (contains k ys ≡ false)
  Distinct-middle [] k v ys d = (refl, d.0)
  Distinct-middle ((j, w) ∷ xs) k v ys d =
      ground (arith, Distinct-middle xs k v ys d.1, find-append j xs ((k, v) ∷ ys))

  -- A key that is found stands somewhere, behind entries with other keys.
  pub find_split :
      (k : ℕ) (v : V) (m : Map V)
      → find k m ≡ some v
      → (xs ys : Map V) × (m ≡ xs ++ ((k, v) ∷ ys)) × (find k xs ≡ none)
  find_split k v [] h = cc
  find_split k v ((j, w) ∷ m) h = elim (Bool-cases (j == k)) [
    | inl hit ↦ ([], m, ground arith, refl)
    | inr miss ↦
        let (xs, ys, e, out) = find_split k v m (ground arith) in ((j, w) ∷ xs, ys, cc, rw miss out)
  ]

  pub find-erase_if :
      (p : ℕ → V → Bool) (k : ℕ) (v : V) (m : Map V)
      → find k m ≡ some v
      → p k v ≡ false
      → find k (erase_if p m) ≡ some v
  unfolding erase_if
  find-erase_if p k v [] h out = cc
  find-erase_if p k v ((j, w) ∷ m) h out = ground (arith, find-erase_if p k v m)

  pub find-erase_if-none :
      (p : ℕ → V → Bool) (k : ℕ) (m : Map V) → find k m ≡ none → find k (erase_if p m) ≡ none
  unfolding erase_if
  find-erase_if-none p k [] h = refl
  find-erase_if-none p k ((j, w) ∷ m) h = ground (arith, find-erase_if-none p k m)

  pub Distinct-erase_if : (p : ℕ → V → Bool) (m : Map V) → Distinct m → Distinct (erase_if p m)
  unfolding erase_if
  Distinct-erase_if p [] d = tt
  Distinct-erase_if p ((j, w) ∷ m) d =
      ground (arith, Distinct-erase_if p m, find-erase_if-none p j m)
