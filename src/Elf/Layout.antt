-- ===== src/Elf/Layout.antt =====
-- The layouts of the packed structures of Components/ElfProcessor/ELF.h, as `memcpy` fills them on a
-- little-endian machine.
pub mod FileHeader
pub mod Sections
pub mod Segments
pub mod Symbols
use universal_symbols.Prelude.{ℕ, List, [], ◌++◌, take, drop}
use universal_symbols.ReCore.Memory.{le_bytes, le_value}
use universal_symbols.Elf.{Ehdr, Phdr, Shdr, Sym}

-- The integer of `width` bytes at an offset.
unfoldable pub uint : ℕ → ℕ → List ℕ → ℕ
uint width at bytes = le_value (take width (drop at bytes))

abbrev pub elf32_ehdr_size : ℕ
elf32_ehdr_size = 52

unfoldable pub elf32_ehdr : List ℕ → Ehdr
unfolding uint
elf32_ehdr b = record {
  e_ident = take 16 b;
  e_type = uint 2 16 b;
  e_machine = uint 2 18 b;
  e_version = uint 4 20 b;
  e_entry = uint 4 24 b;
  e_phoff = uint 4 28 b;
  e_shoff = uint 4 32 b;
  e_flags = uint 4 36 b;
  e_ehsize = uint 2 40 b;
  e_phentsize = uint 2 42 b;
  e_phnum = uint 2 44 b;
  e_shentsize = uint 2 46 b;
  e_shnum = uint 2 48 b;
  e_shstrndx = uint 2 50 b;
}

abbrev pub elf64_ehdr_size : ℕ
elf64_ehdr_size = 64

unfoldable pub elf64_ehdr : List ℕ → Ehdr
unfolding uint
elf64_ehdr b = record {
  e_ident = take 16 b;
  e_type = uint 2 16 b;
  e_machine = uint 2 18 b;
  e_version = uint 4 20 b;
  e_entry = uint 8 24 b;
  e_phoff = uint 8 32 b;
  e_shoff = uint 8 40 b;
  e_flags = uint 4 48 b;
  e_ehsize = uint 2 52 b;
  e_phentsize = uint 2 54 b;
  e_phnum = uint 2 56 b;
  e_shentsize = uint 2 58 b;
  e_shnum = uint 2 60 b;
  e_shstrndx = uint 2 62 b;
}

abbrev pub elf32_phdr_size : ℕ
elf32_phdr_size = 32

unfoldable pub elf32_phdr : List ℕ → Phdr
unfolding uint
elf32_phdr b = record {
  p_type = uint 4 0 b;
  p_flags = uint 4 24 b;
  p_offset = uint 4 4 b;
  p_vaddr = uint 4 8 b;
  p_paddr = uint 4 12 b;
  p_filesz = uint 4 16 b;
  p_memsz = uint 4 20 b;
  p_align = uint 4 28 b;
}

abbrev pub elf64_phdr_size : ℕ
elf64_phdr_size = 56

unfoldable pub elf64_phdr : List ℕ → Phdr
unfolding uint
elf64_phdr b = record {
  p_type = uint 4 0 b;
  p_flags = uint 4 4 b;
  p_offset = uint 8 8 b;
  p_vaddr = uint 8 16 b;
  p_paddr = uint 8 24 b;
  p_filesz = uint 8 32 b;
  p_memsz = uint 8 40 b;
  p_align = uint 8 48 b;
}

abbrev pub elf32_shdr_size : ℕ
elf32_shdr_size = 40

unfoldable pub elf32_shdr : List ℕ → Shdr
unfolding uint
elf32_shdr b = record {
  sh_name = uint 4 0 b;
  sh_type = uint 4 4 b;
  sh_flags = uint 4 8 b;
  sh_addr = uint 4 12 b;
  sh_offset = uint 4 16 b;
  sh_size = uint 4 20 b;
  sh_link = uint 4 24 b;
  sh_info = uint 4 28 b;
  sh_addralign = uint 4 32 b;
  sh_entsize = uint 4 36 b;
}

abbrev pub elf64_shdr_size : ℕ
elf64_shdr_size = 64

unfoldable pub elf64_shdr : List ℕ → Shdr
unfolding uint
elf64_shdr b = record {
  sh_name = uint 4 0 b;
  sh_type = uint 4 4 b;
  sh_flags = uint 8 8 b;
  sh_addr = uint 8 16 b;
  sh_offset = uint 8 24 b;
  sh_size = uint 8 32 b;
  sh_link = uint 4 40 b;
  sh_info = uint 4 44 b;
  sh_addralign = uint 8 48 b;
  sh_entsize = uint 8 56 b;
}

abbrev pub elf32_sym_size : ℕ
elf32_sym_size = 16

unfoldable pub elf32_sym : List ℕ → Sym
unfolding uint
elf32_sym b = record {
  st_name = uint 4 0 b;
  st_info = uint 1 12 b;
  st_other = uint 1 13 b;
  st_shndx = uint 2 14 b;
  st_value = uint 4 4 b;
  st_size = uint 4 8 b;
}

abbrev pub elf64_sym_size : ℕ
elf64_sym_size = 24

unfoldable pub elf64_sym : List ℕ → Sym
unfolding uint
elf64_sym b = record {
  st_name = uint 4 0 b;
  st_info = uint 1 4 b;
  st_other = uint 1 5 b;
  st_shndx = uint 2 6 b;
  st_value = uint 8 8 b;
  st_size = uint 8 16 b;
}
