-- ===== src/Tests/ElfFile.antt =====
-- A 64-bit file with four sections and one symbol.
use universal_symbols.Prelude.{ℕ, true, List, [], ◌∷◌, ◌++◌, codes}
use universal_symbols.ReCore.Memory.{le_bytes}
use universal_symbols.Elf.{Ehdr, Phdr}
use universal_symbols.Elf.Layout.FileHeader.{ehdr_bytes, ehdr64_bytes, ehdr64_rest}
use universal_symbols.Elf.Layout.Segments.{phdr_bytes, phdr64_bytes}
use universal_symbols.Elf.Layout.Sections.{shdr_bytes, shdr64_bytes}
use universal_symbols.Elf.Layout.Symbols.{sym64_bytes}
use universal_symbols.Elf.Parse.{ElfEx, Section, Symbol}
use universal_symbols.Elf.Parse.Tables.{table}

abbrev pub ident : List ℕ
ident = 127 ∷ 69 ∷ 76 ∷ 70 ∷ 2 ∷ 1 ∷ 1 ∷ 0 ∷ 0 ∷ 0 ∷ 0 ∷ 0 ∷ 0 ∷ 0 ∷ 0 ∷ 0 ∷ []

abbrev pub file_header : Ehdr
file_header = record {
  e_ident = ident;
  e_type = 2;
  e_machine = 62;
  e_version = 1;
  e_entry = 4096;
  e_phoff = 64;
  e_shoff = 120;
  e_flags = 0;
  e_ehsize = 64;
  e_phentsize = 56;
  e_phnum = 1;
  e_shentsize = 64;
  e_shnum = 4;
  e_shstrndx = 3;
}

abbrev pub segment : Phdr
segment = record {
  p_type = 1;
  p_flags = 5;
  p_offset = 0;
  p_vaddr = 4096;
  p_paddr = 4096;
  p_filesz = 433;
  p_memsz = 433;
  p_align = 4096;
}

abbrev pub null_section : Section
null_section = record {
  header = record {
    sh_name = 0;
    sh_type = 0;
    sh_flags = 0;
    sh_addr = 0;
    sh_offset = 0;
    sh_size = 0;
    sh_link = 0;
    sh_info = 0;
    sh_addralign = 1;
    sh_entsize = 0;
  };
  name = [];
}

abbrev pub symtab : Section
symtab = record {
  header = record {
    sh_name = 1;
    sh_type = 2;
    sh_flags = 0;
    sh_addr = 0;
    sh_offset = 376;
    sh_size = 24;
    sh_link = 0;
    sh_info = 0;
    sh_addralign = 1;
    sh_entsize = 24;
  };
  name = codes ".symtab";
}

abbrev pub strtab : Section
strtab = record {
  header = record {
    sh_name = 9;
    sh_type = 3;
    sh_flags = 0;
    sh_addr = 0;
    sh_offset = 427;
    sh_size = 6;
    sh_link = 0;
    sh_info = 0;
    sh_addralign = 1;
    sh_entsize = 0;
  };
  name = codes ".strtab";
}

abbrev pub shstrtab : Section
shstrtab = record {
  header = record {
    sh_name = 17;
    sh_type = 3;
    sh_flags = 0;
    sh_addr = 0;
    sh_offset = 400;
    sh_size = 27;
    sh_link = 0;
    sh_info = 0;
    sh_addralign = 1;
    sh_entsize = 0;
  };
  name = codes ".shstrtab";
}

abbrev pub main_symbol : Symbol
main_symbol = record {
  sym = record {
    st_name = 1;
    st_info = 18;
    st_other = 0;
    st_shndx = 1;
    st_value = 4096;
    st_size = 32;
  };
  name = codes "main";
}

abbrev pub parsed : ElfEx
parsed = record {
  is_64_bit = true;
  elf_header = file_header;
  program_header = segment;
  sections = null_section ∷ symtab ∷ strtab ∷ shstrtab ∷ [];
  symbols = main_symbol ∷ [];
}

abbrev pub file : List ℕ
unfolding ehdr_bytes ehdr64_bytes ehdr64_rest phdr_bytes phdr64_bytes shdr_bytes shdr64_bytes table
    sym64_bytes le_bytes
file =
    ehdr_bytes true file_header
    ++ (phdr_bytes true segment
        ++ (table (shdr_bytes true)
              (null_section.header ∷ symtab.header ∷ strtab.header ∷ shstrtab.header ∷ [])
            ++ (sym64_bytes main_symbol.sym
                ++ ((0 ∷ codes ".symtab")
                    ++ (0 ∷ codes ".strtab")
                    ++ (0 ∷ codes ".shstrtab")
                    ++ (0 ∷ (0 ∷ codes "main") ++ (0 ∷ []))))))
