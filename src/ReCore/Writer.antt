-- ===== src/ReCore/Writer.antt =====
-- Libraries/RECore/Writer.h and Writer.cpp: a buffer that grows as it is written.
pub mod Contents
pub mod Steps
use universal_symbols.Prelude.{
  ℕ, ◌+◌, ◌*◌, ◌%◌, Bool, true, List, [], ◌∷◌, ◌++◌, Option, none, some, ◌>>=◌, ltb, ◌==◌,
  if◌then◌else◌, length, replicate, Text,
}
use universal_symbols.ReCore.Memory.{size_mod, copy_into, copy_out, le_bytes}
use universal_symbols.ReCore.Buffer.{Buffer, block, is_overflow, resize, advance}

-- `Writer(size_t)`; the block comes zeroed from `make_unique`.
unfoldable pub sized : ℕ → Buffer
sized initial_size =
    let n = if ltb initial_size 1 then 1 else initial_size in
    record { size = n; position = 0; memory = some (replicate n 0) }

-- `Writer()`
pub new : Buffer
unfolding sized
new = sized 1024

-- What `WriteToFile` leaves on the disk.
pub data Saved : Type 0 where
  refused : Saved
  saved : List ℕ → Saved

-- `opens` says whether the stream opens. The source writes `position+1` bytes.
unfoldable pub write_to_file : Bool → Buffer → Option Saved
write_to_file opens b = elim b.memory [
  | none ↦ some refused
  | some d ↦
      if opens
      then (do bytes ← copy_out d 0 ((b.position + 1) % size_mod); some (saved bytes))
      else some refused
]

-- `grow n` is `n + n * 0.1`, computed in doubles and converted back to `size_t`.
module _ (grow : ℕ → ℕ) where
  unfoldable pub grown_size : ℕ → ℕ → ℕ
  grown_size size count =
      let first = grow size in
      let second = if first == size then size * 2 % size_mod else first in
      let least = (size + count) % size_mod in if ltb second least then least else second

  unfoldable pub write_impl : List ℕ → Buffer → Option Buffer
  write_impl src b = do
    b' ← (if is_overflow (length src) b then resize (grown_size b.size (length src)) b else some b)
    d ← copy_into (block b') b'.position src
    some (advance (length src) (record b' { memory = some d }))

  -- `Write` of a trivial type with `width` bytes.
  unfoldable pub write : ℕ → ℕ → Buffer → Option Buffer
  unfolding write_impl
  write width v = write_impl (le_bytes width v)

  -- `c_str()` ends in a zero, which is written too.
  unfoldable pub write_string : Text → Buffer → Option Buffer
  unfolding write_impl
  write_string s = write_impl (s ++ (0 ∷ []))

-- Writes in a row: the first that faults stops the row.
abbrev pub Step : Type 0
Step = Buffer → Option Buffer

infixr 5 ◌>>◌
abbrev pub ◌>>◌ : Step → Step → Step
(m >> n) b = m b >>= n
