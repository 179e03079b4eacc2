-- ===== src/ReCore/StringConverter.antt =====
-- Libraries/RECore/StringConverter.cpp on Windows, where a wide character has 16 bits: the converters of
-- the standard library between UTF-8 and UTF-16, and between UTF-8 and UCS-2. `none` is the
-- `std::range_error` that a converter throws.
pub mod RoundTrip
use universal_symbols.Prelude.{
  ℕ, zero, suc, ◌+◌, ◌-◌, ◌*◌, ◌/◌, ◌%◌, Bool, not, ◌&&◌, Option, none, some, List, [], ◌∷◌, ◌++◌,
  ltb, leb, if◌then◌else◌, length, ◌>>=◌,
}

unfoldable pub is_surrogate : ℕ → Bool
is_surrogate c = leb 55296 c && ltb c 57344

unfoldable pub is_continuation : ℕ → Bool
is_continuation b = leb 128 b && ltb b 192

-- The bytes of a number below 2 ^ 16.
unfoldable pub utf8_bytes : ℕ → List ℕ
utf8_bytes c =
    if ltb c 128
    then c ∷ []
    else if ltb c 2048
    then (192 + c / 64) ∷ (128 + c % 64) ∷ []
    else (224 + c / 4096) ∷ (128 + c / 64 % 64) ∷ (128 + c % 64) ∷ []

-- A converter to UCS-2 has no rule for surrogates: `surrogate` is what the library does with one.
unfoldable pub utf8_unit : (ℕ → Option (List ℕ)) → ℕ → Option (List ℕ)
unfolding utf8_bytes is_surrogate
utf8_unit surrogate c = if is_surrogate c then surrogate c else some (utf8_bytes c)

-- `std::wstring_convert<std::codecvt_utf8<wchar_t>>::to_bytes`
unfoldable pub from_wide : (ℕ → Option (List ℕ)) → List ℕ → Option (List ℕ)
unfolding utf8_unit
from_wide surrogate [] = some []
from_wide surrogate (c ∷ w) =
    utf8_unit surrogate c >>= λ bytes. from_wide surrogate w >>= λ rest. some (bytes ++ rest)

-- The bits of so many further bytes.
unfoldable pub read_tail : ℕ → ℕ → List ℕ → Option (ℕ × List ℕ)
unfolding is_continuation
read_tail zero c s = some (c, s)
read_tail (suc n) c [] = none
read_tail (suc n) c (b ∷ s) = if is_continuation b then read_tail n (c * 64 + (b - 128)) s else none

-- A code point, and what follows it. A longer form than needed, a surrogate and a number behind the
-- last code point are errors.
unfoldable pub read_point : List ℕ → Option (ℕ × List ℕ)
unfolding read_tail is_surrogate
read_point [] = none
read_point (a ∷ s) =
    if ltb a 128
    then some (a, s)
    else if ltb a 194
    then none
    else if ltb a 224
    then read_tail 1 (a - 192) s
    else if ltb a 240
    then (read_tail 2 (a - 224) s >>= λ got.
        if leb 2048 got.0 && not (is_surrogate got.0) then some got else none)
    else if ltb a 245
    then (read_tail 3 (a - 240) s >>= λ got.
        if leb 65536 got.0 && ltb got.0 1114112 then some got else none)
    else none

unfoldable pub utf16_units : ℕ → List ℕ
utf16_units c =
    if ltb c 65536 then c ∷ [] else (55296 + (c - 65536) / 1024) ∷ (56320 + (c - 65536) % 1024) ∷ []

unfoldable pub read_points : ℕ → List ℕ → Option (List ℕ)
unfolding read_point utf16_units
read_points fuel [] = some []
read_points zero (b ∷ s) = none
read_points (suc fuel) (b ∷ s) = read_point (b ∷ s) >>= λ got.
    read_points fuel got.1 >>= λ rest. some (utf16_units got.0 ++ rest)

-- `std::wstring_convert<std::codecvt_utf8_utf16<wchar_t>>::from_bytes`: each step reads a byte or more.
unfoldable pub to_wide : List ℕ → Option (List ℕ)
unfolding read_points
to_wide s = read_points (length s) s
