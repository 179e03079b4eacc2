-- ===== src/DwarfToUni/Ends.antt =====
-- How DwarfToUni ends on the files that the parser is shown to read, and on others.
use universal_symbols.Prelude.{ℕ, ◌≡◌, refl, List, Text}
use universal_symbols.ReCore.Reader.{File, load_from_file}
use universal_symbols.Usym.{TypeSymbol}
use universal_symbols.Elf.Parse
use universal_symbols.Elf.Parse.{ElfEx, Section, parse, create_usym_from_file}
use universal_symbols.Elf.Parse.Described.{IsImage}
use universal_symbols.Elf.Parse.Image.{parse-IsImage}
use universal_symbols.Serializers.{Disk}
use universal_symbols.Serializers.Library.{JsonLibrary}
use universal_symbols.Serialize.{set_serializer}
use universal_symbols.PdbToUni.{Ending}
use universal_symbols.DwarfToUni.{main, fixed_path}

module _ (l : JsonLibrary) (hash : TypeSymbol → ℕ) (grow : ℕ → ℕ) where
  -- With a well-formed 64-bit ELF file on the fixed path, DwarfToUni exits with 0, and without a file there
  -- with 1. In both cases the files stay as they are.
  pub main-IsImage :
      (open_file no_file : Text → File) (d : Disk) (bytes : List ℕ) (x : ElfEx)
      (strings symtab strtab : Section)
      → IsImage bytes x strings symtab strtab
      → open_file fixed_path ≡ File.readable bytes
      → no_file fixed_path ≡ File.missing
      → (main l hash grow open_file d ≡ Ending.exited 0 d)
        × (main l hash grow no_file d ≡ Ending.exited 1 d)
  unfolding main create_usym_from_file set_serializer parse load_from_file
  main-IsImage open_file no_file d bytes x strings symtab strtab image there missing = (
    rw
        (
          main,
          there,
          create_usym_from_file,
          parse-IsImage bytes x strings symtab strtab image Parse.new,
        )
        refl,
    rw (main, missing) refl,
  )
