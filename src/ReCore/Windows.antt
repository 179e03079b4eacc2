-- ===== src/ReCore/Windows.antt =====
-- What the Windows code of RECore shares: how a function ends, and texts in arrays of characters.
use universal_symbols.Prelude.{
  ℕ, ◌≡◌, arith, Option-cases, inl, inr, zero, suc, Option, none, some, List, [], ◌∷◌, ◌++◌, length,
  drop, take, take_all, length-append, length-drop, ◌≤◌,
}

-- A run returns a value, ends with an exception, or reads outside an array or through a pointer that
-- is no longer valid; it keeps the list of its calls.
pub data Ending (C A : Type 0) : Type 0 where
  returned : A → List C → Ending C A
  thrown : List C → Ending C A
  invalid : List C → Ending C A

infixl 5 ◌and_then◌
abbrev pub ◌and_then◌ : {C A B : Type 0} → Ending C A → (A → List C → Ending C B) → Ending C B
Ending.returned a calls and_then f = f a calls
Ending.thrown calls and_then f = Ending.thrown calls
Ending.invalid calls and_then f = Ending.invalid calls

-- What a function of the system writes over the front of an array whose size it is given: no more
-- than fits.
unfoldable pub overwrite : List ℕ → List ℕ → List ℕ
overwrite new old = take (length old) (new ++ drop (length new) old)

pub overwrite_fits :
    (new old : List ℕ) → length new ≤ length old → overwrite new old ≡ new ++ drop (length new) old
unfolding overwrite
overwrite_fits new old fits =
    take_all (length old) (new ++ drop (length new) old)
      (omega (arith, length-append new (drop (length new) old), length-drop (length new) old, fits))

-- The characters of an array up to the first zero; `none` where the array ends before.
unfoldable pub c_string : List ℕ → Option (List ℕ)
c_string [] = none
c_string (c ∷ s) = elim c [
  | zero ↦ some []
  | suc d ↦ elim (c_string s) [ none ↦ none | some t ↦ some (suc d ∷ t) ]
]

pub c_string-append : (s t w : List ℕ) → c_string s ≡ some w → c_string (s ++ t) ≡ some w
unfolding c_string
c_string-append [] t w h = cc
c_string-append (zero ∷ s) t w h = h
c_string-append (suc c ∷ s) t w h = elim (Option-cases (c_string s)) [
  | inl e ↦ absurd (ground (arith, h, e))
  | inr (u, e) ↦ rw (c_string-append s t u e) (rw e at h)
]
