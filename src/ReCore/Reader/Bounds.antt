-- ===== src/ReCore/Reader/Bounds.antt =====
-- When a read stays inside its block.
use universal_symbols.Prelude.{
  ℕ, ◌+◌, ◌%◌, ◌≤◌, ◌<◌, ◌≡◌, Bool, false, List, ◌++◌, none, some, arith, leb, length, take, drop,
  if◌then◌else◌, length-append, drop-append, take-append,
}
use universal_symbols.ReCore.Memory.{size_mod, copy_out}
use universal_symbols.ReCore.Buffer.{Buffer, is_overflow, advance}
use universal_symbols.ReCore.Reader.{read_impl}

-- The block is as long as the reader's size.
pub record IsLoaded (r : Buffer) (bytes : List ℕ) : Type 0 where
  pub memory : r.memory ≡ some bytes
  pub size : r.size ≡ length bytes

-- Where position and length do not wrap around together, a read never leaves its block: it answers
-- with the bytes at the position, and moves behind them unless it peeks, or it answers false and
-- changes nothing, exactly when the bytes run past the end.
pub read_impl-IsLoaded :
    (count : ℕ) (peek : Bool) (r : Buffer) (bytes : List ℕ)
    → IsLoaded r bytes
    → r.position + count < size_mod
    → read_impl count peek r
      ≡ some (
          if leb (r.position + count) (length bytes)
          then (
            record r { position = if peek then r.position else r.position + count },
            some (take count (drop r.position bytes)),
          )
          else (r, none))
unfolding read_impl is_overflow copy_out advance
read_impl-IsLoaded count peek r bytes h small =
    let mod_small : (r.position + count) % size_mod ≡ r.position + count = omega arith in
    ground (arith, h.memory, h.size, mod_small)

-- `IsOverflow` adds in `size_t`: for a position behind the block, so near the top that the sum
-- with the length wraps around to at most the size, the check lets the read pass, which then
-- copies from outside the block.
pub read_impl_wraps :
    (count : ℕ) (peek : Bool) (r : Buffer) (bytes : List ℕ)
    → IsLoaded r bytes
    → length bytes < r.position
    → size_mod ≤ r.position + count
    → (r.position + count) % size_mod ≤ r.size
    → (is_overflow count r ≡ false) × (read_impl count peek r ≡ none)
unfolding read_impl is_overflow copy_out
read_impl_wraps count peek r bytes h out wraps low = ground (arith, h.memory)

-- Bytes that stand in the middle of the block are read whole.
pub read_impl_middle :
    (r : Buffer) (xs ys zs : List ℕ)
    → IsLoaded r (xs ++ (ys ++ zs))
    → r.position ≡ length xs
    → length xs + length ys < size_mod
    → read_impl (length ys) false r ≡ some (record r { position = r.position + length ys }, some ys)
read_impl_middle r xs ys zs h at small =
    let long : length (xs ++ (ys ++ zs)) ≡ length xs + (length ys + length zs) =
      omega (arith, length-append xs (ys ++ zs), length-append ys zs) in
    let got : take (length ys) (drop r.position (xs ++ (ys ++ zs))) ≡ ys =
      rw (at, drop-append, take-append) in
    ground (arith, read_impl-IsLoaded (length ys) false r (xs ++ (ys ++ zs)) h)
