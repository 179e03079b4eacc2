-- ===== src/Tests/Elf.antt =====
-- The parser on the 64-bit file.
use universal_symbols.Prelude.{◌≡◌, refl, inr, true, [], ◌∷◌, some, arith, take, drop}
use universal_symbols.ReCore.Memory.{le_bytes}
use universal_symbols.ReCore.Reader.{File}
use universal_symbols.Elf.Layout.FileHeader.{ehdr_bytes, ehdr64_bytes, ehdr64_rest, IsEhdr}
use universal_symbols.Elf.Layout.Segments.{phdr_bytes, phdr64_bytes, IsPhdr}
use universal_symbols.Elf.Layout.Sections.{shdr_bytes, shdr64_bytes, IsShdr}
use universal_symbols.Elf.Layout.Symbols.{sym64_bytes}
use universal_symbols.Elf.Parse
use universal_symbols.Elf.Parse.{
  ElfEx, Section, Symbol, parse, seek, read_symbol_table, read_symbols, read_struct, times,
  unnamed_symbol,
}
use universal_symbols.Elf.Parse.Tables.{table}
use universal_symbols.Elf.Parse.Described.{IsImage}
use universal_symbols.Elf.Parse.Image.{parse-IsImage}
use universal_symbols.Tests.ElfFile.{
  file_header, segment, null_section, symtab, strtab, shstrtab, parsed, file,
}

file-IsImage : IsImage file parsed shstrtab symtab strtab
unfolding ehdr_bytes ehdr64_bytes ehdr64_rest phdr_bytes phdr64_bytes shdr_bytes shdr64_bytes table
    sym64_bytes le_bytes IsEhdr IsPhdr IsShdr
file-IsImage = record {
  small = omega arith;
  file_class = record { before = take 4 file; after = drop 5 file; split = refl; place = refl };
  file_header = record { before = take 0 file; after = drop 64 file; split = refl; place = refl };
  file_header_fits = record {
    e_ident = refl;
    e_type = omega arith;
    e_machine = omega arith;
    e_version = omega arith;
    e_entry = omega arith;
    e_phoff = omega arith;
    e_shoff = omega arith;
    e_flags = omega arith;
    e_ehsize = omega arith;
    e_phentsize = omega arith;
    e_phnum = omega arith;
    e_shentsize = omega arith;
    e_shnum = omega arith;
    e_shstrndx = omega arith;
  };
  segment = record { before = take 64 file; after = drop 120 file; split = refl; place = refl };
  segment_fits = record {
    p_type = omega arith;
    p_flags = omega arith;
    p_offset = omega arith;
    p_vaddr = omega arith;
    p_paddr = omega arith;
    p_filesz = omega arith;
    p_memsz = omega arith;
    p_align = omega arith;
  };
  section_count = refl;
  section_table = record {
    before = take 120 file;
    after = drop 376 file;
    split = refl;
    place = refl;
  };
  sections_fit = (
    record {
      sh_name = omega arith;
      sh_type = omega arith;
      sh_flags = omega arith;
      sh_addr = omega arith;
      sh_offset = omega arith;
      sh_size = omega arith;
      sh_link = omega arith;
      sh_info = omega arith;
      sh_addralign = omega arith;
      sh_entsize = omega arith;
    },
    (
      record {
        sh_name = omega arith;
        sh_type = omega arith;
        sh_flags = omega arith;
        sh_addr = omega arith;
        sh_offset = omega arith;
        sh_size = omega arith;
        sh_link = omega arith;
        sh_info = omega arith;
        sh_addralign = omega arith;
        sh_entsize = omega arith;
      },
      (
        record {
          sh_name = omega arith;
          sh_type = omega arith;
          sh_flags = omega arith;
          sh_addr = omega arith;
          sh_offset = omega arith;
          sh_size = omega arith;
          sh_link = omega arith;
          sh_info = omega arith;
          sh_addralign = omega arith;
          sh_entsize = omega arith;
        },
        (
          record {
            sh_name = omega arith;
            sh_type = omega arith;
            sh_flags = omega arith;
            sh_addr = omega arith;
            sh_offset = omega arith;
            sh_size = omega arith;
            sh_link = omega arith;
            sh_info = omega arith;
            sh_addralign = omega arith;
            sh_entsize = omega arith;
          },
          tt,
        ),
      ),
    ),
  );
  has_strings = omega arith;
  strings_index = refl;
  sections_named = (
    record {
      nonzero = tt;
      stands = record { before = take 400 file; after = drop 401 file; split = refl; place = refl };
    },
    (
      record {
        nonzero = (
          omega arith,
          (
            omega arith,
            (omega arith, (omega arith, (omega arith, (omega arith, (omega arith, tt))))),
          ),
        );
        stands = record {
          before = take 401 file;
          after = drop 409 file;
          split = refl;
          place = refl;
        };
      },
      (
        record {
          nonzero = (
            omega arith,
            (
              omega arith,
              (omega arith, (omega arith, (omega arith, (omega arith, (omega arith, tt))))),
            ),
          );
          stands = record {
            before = take 409 file;
            after = drop 417 file;
            split = refl;
            place = refl;
          };
        },
        (
          record {
            nonzero = (
              omega arith,
              (
                omega arith,
                (
                  omega arith,
                  (
                    omega arith,
                    (omega arith, (omega arith, (omega arith, (omega arith, (omega arith, tt))))),
                  ),
                ),
              ),
            );
            stands = record {
              before = take 417 file;
              after = drop 427 file;
              split = refl;
              place = refl;
            };
          },
          tt,
        ),
      ),
    ),
  );
  symtab_placed = record {
    before = null_section ∷ [];
    behind = strtab ∷ shstrtab ∷ [];
    split = refl;
    named = refl;
    none_before = (refl, tt);
    none_behind = (refl, (refl, tt));
  };
  strtab_placed = record {
    before = null_section ∷ symtab ∷ [];
    behind = shstrtab ∷ [];
    split = refl;
    named = refl;
    none_before = (refl, (refl, tt));
    none_behind = (refl, tt);
  };
  has_symbols = omega arith;
  symbol_count = refl;
  symbol_table = record {
    before = take 376 file;
    after = drop 400 file;
    split = refl;
    place = refl;
  };
  symbols_fit = (
    record {
      st_name = omega arith;
      st_info = omega arith;
      st_other = omega arith;
      st_shndx = omega arith;
      st_value = omega arith;
      st_size = omega arith;
    },
    tt,
  );
  symbols_named = (
    inr (
      omega arith,
      record {
        nonzero = (omega arith, (omega arith, (omega arith, (omega arith, tt))));
        stands = record {
          before = take 428 file;
          after = drop 433 file;
          split = refl;
          place = refl;
        };
      },
    ),
    tt,
  );
}

parse-IsImage_example :
    parse (File.readable file) Parse.new
    ≡ some (
      record {
        is_64_bit = true;
        elf_header = record file_header { e_ident = Parse.new.elf_header.e_ident };
        program_header = segment;
        sections = parsed.sections;
        symbols = parsed.symbols;
      },
      true,
    )
parse-IsImage_example = parse-IsImage file parsed shstrtab symtab strtab file-IsImage Parse.new
