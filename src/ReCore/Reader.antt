-- ===== src/ReCore/Reader.antt =====
-- Libraries/RECore/Reader.h and Reader.cpp: a buffer that is read from the front. `none` is an
-- access outside the block.
pub mod Bounds
pub mod Stands
use universal_symbols.Prelude.{
  ℕ, ◌+◌, Bool, true, false, List, [], ◌∷◌, Option, none, some, ◌>>=◌, ◌==◌, if◌then◌else◌, length,
  drop, Text,
}
use universal_symbols.ReCore.Memory.{copy_out}
use universal_symbols.ReCore.Buffer.{Buffer, block, is_overflow, advance}

-- What stands under a name: nothing, a file of some size that does not open, or its bytes.
pub data File : Type 0 where
  missing : File
  locked : ℕ → File
  readable : List ℕ → File

-- The size is set before the stream is opened; the position stays.
unfoldable pub load_from_file : File → Buffer → Buffer × Bool
load_from_file missing r = (r, false)
load_from_file (locked n) r = (record r { size = n }, false)
load_from_file (readable bytes) r = (record r { size = length bytes; memory = some bytes }, true)

-- The bytes that are copied to the destination, or `none` where the call returns false and leaves
-- the destination alone.
unfoldable pub read_impl : ℕ → Bool → Buffer → Option (Buffer × Option (List ℕ))
read_impl count peek r =
    if is_overflow count r
    then some (r, none)
    else copy_out (block r) r.position count >>= λ bytes.
        some (if peek then r else advance count r, some bytes)

-- `Read` of a trivial type with `width` bytes.
unfoldable pub read : ℕ → Buffer → Option (Buffer × Option (List ℕ))
unfolding read_impl
read width = read_impl width false

-- The characters up to the first zero; there may be none before the end of the block.
unfoldable pub until_zero : List ℕ → Option Text
until_zero [] = none
until_zero (c ∷ bytes) =
    let rest = until_zero bytes in if c == 0 then some [] else rest >>= λ s. some (c ∷ s)

-- `ReadString()`
unfoldable pub read_string : Buffer → Option (Buffer × Text)
unfolding until_zero
read_string r = until_zero (drop r.position (block r)) >>= λ s. some (advance (length s + 1) r, s)

-- `ReadString(aLength)`
unfoldable pub read_string_sized : ℕ → Buffer → Option (Buffer × Text)
read_string_sized count r =
    copy_out (block r) r.position count >>= λ s. some (advance (length s) r, s)
