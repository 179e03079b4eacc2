-- ===== src/Elf/Parse/Described.antt =====
-- A whole 64-bit file, described by the tables that stand in it.
use universal_symbols.Prelude.{
  ℕ, ◌*◌, ◌<◌, ◌≡◌, true, List, [], ◌∷◌, ◌++◌, map, some, length, All, Text, codes, get_elem?,
}
use universal_symbols.ReCore.Memory.{size_mod}
use universal_symbols.ReCore.Reader.Stands.{Stands}
use universal_symbols.Elf.{Shdr, Sym}
use universal_symbols.Elf.Layout.FileHeader.{ehdr_bytes, IsEhdr}
use universal_symbols.Elf.Layout.Segments.{phdr_bytes, IsPhdr}
use universal_symbols.Elf.Layout.Sections.{shdr_bytes, IsShdr}
use universal_symbols.Elf.Layout.Symbols.{sym64_bytes, IsSym64}
use universal_symbols.Elf.Parse.{ElfEx, Section, Symbol}
use universal_symbols.Elf.Parse.Tables.{table}
use universal_symbols.Elf.Parse.Names.{SectionNamed, SymbolNamed, IsNamed, IsNotNamed}

abbrev pub header_of : Section → Shdr
header_of s = s.header

abbrev pub sym_of : Symbol → Sym
sym_of s = s.sym

-- `none_before` and `none_behind`: the section is the one of its name that counts.
pub record IsPlaced (sections : List Section) (name : Text) (s : Section) : Type 0 where
  pub before : List Section
  pub behind : List Section
  pub split : sections ≡ before ++ (s ∷ behind)
  pub named : IsNamed name s
  pub none_before : All (IsNotNamed name) before
  pub none_behind : All (IsNotNamed name) behind

-- What a 64-bit file with sections and symbols holds, and where.
pub record IsImage (bytes : List ℕ) (x : ElfEx) (strings symtab strtab : Section) : Type 0 where
  pub small : length bytes < size_mod
  pub file_class : Stands bytes 4 (2 ∷ [])
  pub file_header : Stands bytes 0 (ehdr_bytes true x.elf_header)
  pub file_header_fits : IsEhdr true x.elf_header
  pub segment : Stands bytes x.elf_header.e_phoff (phdr_bytes true x.program_header)
  pub segment_fits : IsPhdr true x.program_header
  pub section_count : length x.sections ≡ x.elf_header.e_shnum
  pub section_table :
      Stands bytes x.elf_header.e_shoff (table (shdr_bytes true) (map header_of x.sections))
  pub sections_fit : All (IsShdr true) (map header_of x.sections)
  pub has_strings : 0 < x.elf_header.e_shstrndx
  pub strings_index : get_elem? x.sections x.elf_header.e_shstrndx ≡ some strings
  pub sections_named : All (SectionNamed bytes strings) x.sections
  pub symtab_placed : IsPlaced x.sections (codes ".symtab") symtab
  pub strtab_placed : IsPlaced x.sections (codes ".strtab") strtab
  pub has_symbols : 0 < length x.symbols
  pub symbol_count : symtab.header.sh_size ≡ 24 * length x.symbols
  pub symbol_table : Stands bytes symtab.header.sh_offset (table sym64_bytes (map sym_of x.symbols))
  pub symbols_fit : All IsSym64 (map sym_of x.symbols)
  pub symbols_named : All (SymbolNamed bytes strtab.header) x.symbols
