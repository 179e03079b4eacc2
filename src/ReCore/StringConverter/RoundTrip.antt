-- ===== src/ReCore/StringConverter/RoundTrip.antt =====
-- Texts that come back from a conversion to UTF-8.
use universal_symbols.Prelude.{
  ℕ, zero, suc, ◌+◌, ◌/◌, ◌%◌, ◌<◌, ◌≤◌, ◌≡◌, refl, ap, true, false, Option, some, List, [], ◌∷◌,
  ◌++◌, ltb, length, arith, length-append, All, inl, inr, Bool-cases,
}
use mathlib.Core.Path.{subst}
use universal_symbols.ReCore.StringConverter.{
  is_surrogate, is_continuation, utf8_bytes, utf8_unit, from_wide, read_tail, read_point,
  utf16_units, read_points, to_wide,
}

-- A 16-bit number that is a code point.
abbrev pub IsUnit : ℕ → Type 0
IsUnit c = (c < 65536) × (is_surrogate c ≡ false)

read_point-utf8_bytes :
    (c : ℕ) (rest : List ℕ) → IsUnit c → read_point (utf8_bytes c ++ rest) ≡ some (c, rest)
unfolding read_point utf8_bytes read_tail is_continuation is_surrogate
read_point-utf8_bytes c rest h = ground arith

-- The UTF-8 form of such numbers.
unfoldable pub utf8_text : List ℕ → List ℕ
utf8_text [] = []
utf8_text (c ∷ w) = utf8_bytes c ++ utf8_text w

pub from_wide_lem :
    (surrogate : ℕ → Option (List ℕ)) (w : List ℕ)
    → All IsUnit w
    → from_wide surrogate w ≡ some (utf8_text w)
unfolding from_wide utf8_text utf8_unit
from_wide_lem surrogate [] h = refl
from_wide_lem surrogate (c ∷ w) (here, rest) = rw (here.1, from_wide_lem surrogate w rest) refl

utf8_bytes-first : (c : ℕ) → (b : ℕ) × (s : List ℕ) × (utf8_bytes c ≡ b ∷ s)
unfolding utf8_bytes
utf8_bytes-first c = elim (Bool-cases (ltb c 128)) [
  | inl e ↦ (c, [], rw e refl)
  | inr e ↦ elim (Bool-cases (ltb c 2048)) [
    | inl e1 ↦ (192 + c / 64, (128 + c % 64) ∷ [], rw (e, e1) refl)
    | inr e1 ↦ (224 + c / 4096, (128 + c / 64 % 64) ∷ (128 + c % 64) ∷ [], rw (e, e1) refl)
  ]
]

read_points-utf8_text :
    (fuel : ℕ) (w : List ℕ)
    → All IsUnit w
    → length (utf8_text w) ≤ fuel
    → read_points fuel (utf8_text w) ≡ some w
unfolding read_points utf8_text utf16_units
read_points-utf8_text fuel [] h enough = refl
read_points-utf8_text zero (c ∷ w) (here, rest) enough =
    let (b, s, e) = utf8_bytes-first c in
    ground (arith, length-append (utf8_bytes c) (utf8_text w), e)
read_points-utf8_text (suc fuel) (c ∷ w) (here, rest) enough =
    let (b, s, e) = utf8_bytes-first c in
    let size : length (utf8_bytes c) ≡ suc (length s) = ap length e in
    let less : length (utf8_text w) ≤ fuel =
      omega (arith, length-append (utf8_bytes c) (utf8_text w), size, enough) in
    let read : read_point (b ∷ (s ++ utf8_text w)) ≡ some (c, utf8_text w) =
      subst (λ t. read_point (t ++ utf8_text w) ≡ some (c, utf8_text w)) e
        (read_point-utf8_bytes c (utf8_text w) here) in
    let small : ltb c 65536 ≡ true = ground arith in
    rw (e, read, read_points-utf8_text fuel w rest less, small) refl

-- Where no wide character is one half of a surrogate pair, a text that was converted to UTF-8 is
-- converted back to what it was, whatever the library does with surrogates.
pub to_wide-from_wide :
    (surrogate : ℕ → Option (List ℕ)) (w : List ℕ)
    → All IsUnit w
    → (s : List ℕ) × (from_wide surrogate w ≡ some s) × (to_wide s ≡ some w)
unfolding to_wide
to_wide-from_wide surrogate w h =
    let s = utf8_text w in
    (s, from_wide_lem surrogate w h, read_points-utf8_text (length s) w h (omega arith))
