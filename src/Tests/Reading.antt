-- ===== src/Tests/Reading.antt =====
-- A reader over a small block.
use universal_symbols.Prelude.{
  ◌+◌, ◌≡◌, refl, false, [], ◌∷◌, none, some, arith, leb, take, drop, if◌then◌else◌,
}
use universal_symbols.ReCore.Buffer.{Buffer, is_overflow}
use universal_symbols.ReCore.Reader.{read_impl}
use universal_symbols.ReCore.Reader.Bounds.{read_impl-IsLoaded, read_impl_wraps}

abbrev at_one : Buffer
at_one = record { size = 3; position = 1; memory = some (5 ∷ 6 ∷ 7 ∷ []) }

read_impl-IsLoaded_example :
    read_impl 2 false at_one
    ≡ some (
        if leb (1 + 2) 3
        then (
          record at_one { position = if false then 1 else 1 + 2 },
          some (take 2 (drop 1 (5 ∷ 6 ∷ 7 ∷ []))),
        )
        else (at_one, none))
read_impl-IsLoaded_example =
    read_impl-IsLoaded 2 false at_one (5 ∷ 6 ∷ 7 ∷ []) (record { memory = refl; size = refl })
      (omega arith)

-- A position of 2^64 - 1, as a field of a malformed file can give.
abbrev at_top : Buffer
at_top = record { size = 3; position = 0xffff_ffff_ffff_ffff; memory = some (5 ∷ 6 ∷ 7 ∷ []) }

read_impl_wraps_example : (is_overflow 2 at_top ≡ false) × (read_impl 2 false at_top ≡ none)
read_impl_wraps_example =
    read_impl_wraps 2 false at_top (5 ∷ 6 ∷ 7 ∷ []) (record { memory = refl; size = refl })
      (omega arith) (omega arith) (omega arith)
