-- ===== src/Tests/Writing.antt =====
-- A writer with a small block.
use universal_symbols.Prelude.{
  ◌+◌, ◌*◌, ◌≤◌, ◌≡◌, refl, true, [], ◌∷◌, ◌++◌, none, some, arith, if◌then◌else◌, ◌==◌, replicate,
}
use universal_symbols.ReCore.Memory.{copy_into, copy_out}
use universal_symbols.ReCore.Buffer.{Buffer, is_overflow, resize, advance}
use universal_symbols.ReCore.Writer.{write_impl, write_to_file, saved, refused, grown_size}
use universal_symbols.ReCore.Writer.Contents.{Holds, write_impl-Holds, write_to_file-Holds}
use universal_symbols.Tests.Samples.{grow}

abbrev two_left : Buffer
two_left = record { size = 4; position = 2; memory = some (7 ∷ 8 ∷ 0 ∷ 0 ∷ []) }

two_left-Holds : Holds two_left (7 ∷ 8 ∷ [])
unfolding replicate
two_left-Holds = record { slack = 2; filled = refl; at = refl; room = refl }

-- Four bytes are not enough for five: the block grows to nine.
grows :
    write_impl grow (1 ∷ 2 ∷ 3 ∷ 4 ∷ 5 ∷ []) two_left
    ≡ some
        (record { size = 9; position = 7; memory = some (7 ∷ 8 ∷ 1 ∷ 2 ∷ 3 ∷ 4 ∷ 5 ∷ 0 ∷ 0 ∷ []) })
unfolding write_impl is_overflow grown_size resize advance copy_into copy_out replicate
grows = refl

write_impl-Holds_example :
    (b' : Buffer) × (write_impl grow (1 ∷ 2 ∷ 3 ∷ 4 ∷ 5 ∷ []) two_left ≡ some b')
    × Holds b' ((7 ∷ 8 ∷ []) ++ (1 ∷ 2 ∷ 3 ∷ 4 ∷ 5 ∷ []))
    × (b'.size ≤ 4 + 2 * b'.position)
    × (4 ≤ b'.size)
write_impl-Holds_example =
    write_impl-Holds grow 4 (1 ∷ 2 ∷ 3 ∷ 4 ∷ 5 ∷ []) two_left (7 ∷ 8 ∷ []) (omega arith)
      two_left-Holds (omega arith) (omega arith)

write_to_file-Holds_example : write_to_file true two_left ≡ (
    if true
    then if two_left-Holds.slack == 0 then none else some (saved ((7 ∷ 8 ∷ []) ++ (0 ∷ [])))
    else some refused)
write_to_file-Holds_example =
    write_to_file-Holds true two_left (7 ∷ 8 ∷ []) two_left-Holds (omega arith)
