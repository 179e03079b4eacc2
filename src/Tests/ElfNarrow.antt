-- ===== src/Tests/ElfNarrow.antt =====
-- The parser on two symbols of a 32-bit file, on a broken section index, and on no ELF file.
use universal_symbols.Prelude.{ℕ, ◌≡◌, refl, false, List, [], ◌∷◌, map, none, some, ◌>>=◌, arith}
use universal_symbols.ReCore.Memory.{le_bytes, le_value}
use universal_symbols.ReCore.Buffer.{Buffer}
use universal_symbols.ReCore.Reader.{File}
use universal_symbols.Usym
use universal_symbols.Elf.{Sym, zero_ehdr, zero_phdr}
use universal_symbols.Elf.Layout.{elf64_sym, elf64_sym_size}
use universal_symbols.Elf.Layout.Symbols.{sym32_bytes}
use universal_symbols.Elf.Parse
use universal_symbols.Elf.Parse.Short.{create_usym_from_file_short}
use universal_symbols.Elf.Parse.{
  create_usym_from_file, ElfEx, seek, read_symbol_table, read_symbols, read_struct, times,
  unnamed_symbol,
}
use universal_symbols.Elf.Parse.Structures.{behind}
use universal_symbols.Elf.Parse.Narrow.{
  misread, window, read_symbol_table_narrow, read_symbols_faults,
}
use universal_symbols.Tests.ElfFile.{file_header, null_section, symtab, strtab, shstrtab, parsed}

-- Two symbols of a 32-bit file.
abbrev narrow : Sym
narrow = record {
  st_name = 1;
  st_info = 18;
  st_other = 0;
  st_shndx = 7;
  st_value = 4098;
  st_size = 32;
}

abbrev narrow_bytes : List ℕ
unfolding sym32_bytes le_bytes
narrow_bytes = window narrow narrow

abbrev narrow_reader : Buffer
narrow_reader = record { size = 24; position = 0; memory = some narrow_bytes }

read_symbol_table_narrow_example : read_symbol_table false 0 32 narrow_reader ≡ (
    times 1 (read_struct elf64_sym_size elf64_sym) (behind 24 (seek 0 narrow_reader)) >>= λ got.
    some (got.0, unnamed_symbol (misread narrow narrow) ∷ map unnamed_symbol got.1))
unfolding sym32_bytes le_bytes
read_symbol_table_narrow_example =
    read_symbol_table_narrow narrow_reader narrow_bytes narrow narrow 0 1
      (record { memory = refl; size = refl }) (omega arith)
      (record { before = []; after = []; split = refl; place = refl })
      (record {
        st_name = omega arith;
        st_info = omega arith;
        st_other = omega arith;
        st_shndx = omega arith;
        st_value = omega arith;
        st_size = omega arith;
      })
      (record {
        st_name = omega arith;
        st_info = omega arith;
        st_other = omega arith;
        st_shndx = omega arith;
        st_value = omega arith;
        st_size = omega arith;
      })

-- Four sections, and their names in the section of index 9.
abbrev broken : ElfEx
broken = record parsed { elf_header = record file_header { e_shstrndx = 9 } }

read_symbols_faults_example : read_symbols broken narrow_reader ≡ none
read_symbols_faults_example =
    read_symbols_faults broken null_section (symtab ∷ strtab ∷ shstrtab ∷ []) narrow_reader refl
      (omega arith) (omega arith)

-- The first two bytes of a Windows program.
create_usym_from_file_short_example :
    create_usym_from_file (File.readable (77 ∷ 90 ∷ [])) Parse.new
    ≡ some (
      record {
        is_64_bit = false;
        elf_header = record zero_ehdr { e_ident = Parse.new.elf_header.e_ident };
        program_header = zero_phdr;
        sections = [];
        symbols = [];
      },
      some Usym.new,
    )
unfolding le_value
create_usym_from_file_short_example =
    create_usym_from_file_short (77 ∷ 90 ∷ []) (omega arith) Parse.new
