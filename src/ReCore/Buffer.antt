-- ===== src/ReCore/Buffer.antt =====
-- Libraries/RECore/Buffer.h and Buffer.cpp: a block of bytes with a position.
-- `size_t` has 64 bits. `none` is an access outside the block.
use universal_symbols.Prelude.{
  ℕ, ◌+◌, ◌%◌, Bool, List, [], Option, none, some, ◌>>=◌, ltb, replicate,
}
use universal_symbols.ReCore.Memory.{size_mod, copy_into, copy_out}

-- `memory` is `pData`: a unique_ptr that may be empty.
pub record Buffer : Type 0 where
  pub size : ℕ
  pub position : ℕ
  pub memory : Option (List ℕ)

abbrev pub new : Buffer
new = record { size = 0; position = 0; memory = none }

-- The bytes that `pData` owns.
abbrev pub block : Buffer → List ℕ
block b = elim b.memory [ none ↦ [] | some d ↦ d ]

-- The move constructor: the new buffer, and what is left of the old one.
pub move : Buffer → Buffer × Buffer
move b = (record { size = b.size; position = 0; memory = b.memory }, record b { memory = none })

-- The move assignment `target = std::move(b)`.
pub move_assign : Buffer → Buffer → Buffer × Buffer
move_assign target b =
    (record target { size = b.size; memory = b.memory }, record b { memory = none })

unfoldable pub is_overflow : ℕ → Buffer → Bool
is_overflow count b = ltb b.size ((b.position + count) % size_mod)

-- `make_unique` zeroes the new block.
unfoldable pub resize : ℕ → Buffer → Option Buffer
resize new_size b = do
  old ← copy_out (block b) 0 b.size
  d ← copy_into (replicate new_size 0) 0 old
  some (record b { memory = some d; size = new_size })

unfoldable pub reset : Buffer → Buffer
reset b = record b { position = 0 }

unfoldable pub advance : ℕ → Buffer → Buffer
advance count b = record b { position = (b.position + count) % size_mod }
