-- ===== src/DwarfToUni.antt =====
-- DwarfToUni/main.cpp: an ELF file on a fixed path is read, and a serializer is chosen; the call that
-- would write is commented out. Logging is left out.
pub mod Ends
use universal_symbols.Prelude.{ℕ, Option, none, some, Text, codes}
use universal_symbols.ReCore.Reader.{File}
use universal_symbols.Usym.{TypeSymbol}
use universal_symbols.Elf.Parse
use universal_symbols.Elf.Parse.{ElfEx, create_usym_from_file}
use universal_symbols.Serializers.{SerializerType, Disk}
use universal_symbols.Serializers.Library.{JsonLibrary}
use universal_symbols.Serialize.{SetResult, set_serializer}
use universal_symbols.PdbToUni.{Ending}

abbrev pub fixed_path : Text
fixed_path =
    codes "C:\\Users\\Someone\\Desktop\\linux_rust_sample\\target\\debug\\rust_linux_sample"

module _ (l : JsonLibrary) (hash : TypeSymbol → ℕ) (grow : ℕ → ℕ) where
  -- `open_file` is what the disk has on a path.
  unfoldable pub main : (Text → File) → Disk → Ending
  unfolding set_serializer
  main open_file d = elim (create_usym_from_file (open_file fixed_path) Parse.new) [
    | none ↦ Ending.undefined
    | some (e, none) ↦ Ending.exited 1 d
    | some (e, some u) ↦
        elim (set_serializer l hash grow SerializerType.json
          (record { usym = u; serializer = none })) [
            | SetResult.thrown message ↦ Ending.terminated
            | SetResult.done p ↦ Ending.exited 0 d
          ]
  ]
