-- ===== src/ReCore/Memory.antt =====
-- The raw memory behind Libraries/RECore/Buffer.h: a block of bytes, copied with `memcpy`.
-- `none` is an access outside the block, which is undefined behaviour in the source.
use native.Mathlib.Nat.{pow-suc}
use universal_symbols.Prelude.{
  ℕ, zero, suc, ◌+◌, ◌-◌, ◌*◌, ◌/◌, ◌%◌, ◌^◌, ◌≤◌, ◌<◌, ◌≡◌, refl, ap, sym, List, [], ◌∷◌, ◌++◌,
  Option, none, some, arith, leb, if◌then◌else◌, length, take, drop, replicate, All, length-append,
  take-append, take_all, drop-append, drop-append_add, append_assoc, drop-replicate,
  length-replicate, true,
}

abbrev pub IsByte : ℕ → Type 0
IsByte b = b < 256

abbrev pub size_mod : ℕ
size_mod = 2 ^ 64

-- `memcpy(dst + at, src, length src)`, with the block `dst` known.
unfoldable pub copy_into : List ℕ → ℕ → List ℕ → Option (List ℕ)
copy_into dst at src =
    if leb (at + length src) (length dst)
    then some (take at dst ++ (src ++ drop (at + length src) dst))
    else none

-- `memcpy(out, src + at, n)`
unfoldable pub copy_out : List ℕ → ℕ → ℕ → Option (List ℕ)
copy_out src at n = if leb (at + n) (length src) then some (take n (drop at src)) else none

-- A little-endian machine: the bytes of a `w`-byte integer, lowest first.
unfoldable pub le_bytes : ℕ → ℕ → List ℕ
le_bytes zero v = []
le_bytes (suc w) v = (v % 256) ∷ le_bytes w (v / 256)

unfoldable pub le_value : List ℕ → ℕ
le_value [] = 0
le_value (b ∷ bs) = b + 256 * le_value bs

pub length-le_bytes : (w v : ℕ) → length (le_bytes w v) ≡ w
unfolding le_bytes
length-le_bytes zero v = refl
length-le_bytes (suc w) v = ap suc (length-le_bytes w (v / 256))

pub le_bytes-IsByte : (w v : ℕ) → All IsByte (le_bytes w v)
unfolding le_bytes
le_bytes-IsByte zero v = tt
le_bytes-IsByte (suc w) v = (omega arith, le_bytes-IsByte w (v / 256))

-- A number below 256 ^ w is read back from its `w` bytes.
pub le_value-le_bytes : (w v : ℕ) → v < 256 ^ w → le_value (le_bytes w v) ≡ v
unfolding le_bytes le_value
le_value-le_bytes zero v h = omega arith
le_value-le_bytes (suc w) v h =
    let low : v / 256 < 256 ^ w = omega (arith, pow-suc 256 w) in
    omega (arith, le_value-le_bytes w (v / 256) low)

-- A copy at the end of what is written, over a slack of zeros.
pub copy_into-zeros :
    (bs cs : List ℕ) (slack : ℕ)
    → length cs ≤ slack
    → copy_into (bs ++ replicate slack 0) (length bs) cs
      ≡ some ((bs ++ cs) ++ replicate (slack - length cs) 0)
unfolding copy_into
copy_into-zeros bs cs slack h =
    let fits : leb (length bs + length cs) (length (bs ++ replicate slack 0)) ≡ true =
      ground (arith, length-append bs (replicate slack 0), length-replicate {A = ℕ} slack 0) in
    rw (fits, take-append, drop-append_add, drop-replicate) (ap some (sym (append_assoc bs cs _)))

-- What is copied out of the middle of a block.
pub copy_out_middle :
    (xs ys zs : List ℕ) → copy_out (xs ++ (ys ++ zs)) (length xs) (length ys) ≡ some ys
unfolding copy_out
copy_out_middle xs ys zs =
    let fits : leb (length xs + length ys) (length (xs ++ (ys ++ zs))) ≡ true =
      ground (arith, length-append xs (ys ++ zs), length-append ys zs) in
    rw (fits, drop-append, take-append)

pub copy_out_all : (d : List ℕ) (n : ℕ) → n ≡ length d → copy_out d 0 n ≡ some d
unfolding copy_out
copy_out_all d n e =
    let fits : leb (0 + n) (length d) ≡ true = ground arith in
    rw fits (ap some (take_all n d (omega arith)))
