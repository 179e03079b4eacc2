-- ===== src/Elf.antt =====
-- Components/ElfProcessor/ELF.h: the structures of an ELF file. The 32-bit and the 64-bit structure
-- have the same fields, with other widths and in another order (`Layout`), so one record serves both.
pub mod Layout
pub mod Parse
use universal_symbols.Prelude.{ℕ, ◌/◌, ◌%◌, List, [], replicate}

-- `Elf32_Ehdr` and `Elf64_Ehdr`
pub record Ehdr : Type 0 where
  pub e_ident : List ℕ
  pub e_type : ℕ
  pub e_machine : ℕ
  pub e_version : ℕ
  pub e_entry : ℕ
  pub e_phoff : ℕ
  pub e_shoff : ℕ
  pub e_flags : ℕ
  pub e_ehsize : ℕ
  pub e_phentsize : ℕ
  pub e_phnum : ℕ
  pub e_shentsize : ℕ
  pub e_shnum : ℕ
  pub e_shstrndx : ℕ

-- `Elf32_Phdr` and `Elf64_Phdr`
pub record Phdr : Type 0 where
  pub p_type : ℕ
  pub p_flags : ℕ
  pub p_offset : ℕ
  pub p_vaddr : ℕ
  pub p_paddr : ℕ
  pub p_filesz : ℕ
  pub p_memsz : ℕ
  pub p_align : ℕ

-- `Elf32_Shdr` and `Elf64_Shdr`
pub record Shdr : Type 0 where
  pub sh_name : ℕ
  pub sh_type : ℕ
  pub sh_flags : ℕ
  pub sh_addr : ℕ
  pub sh_offset : ℕ
  pub sh_size : ℕ
  pub sh_link : ℕ
  pub sh_info : ℕ
  pub sh_addralign : ℕ
  pub sh_entsize : ℕ

-- `Elf32_Sym` and `Elf64_Sym`
pub record Sym : Type 0 where
  pub st_name : ℕ
  pub st_info : ℕ
  pub st_other : ℕ
  pub st_shndx : ℕ
  pub st_value : ℕ
  pub st_size : ℕ

-- `st_info >> 4` and `st_info & 0x0f`
unfoldable pub get_binding : Sym → ℕ
get_binding s = s.st_info / 16

unfoldable pub get_type : Sym → ℕ
get_type s = s.st_info % 16

abbrev pub elfclass64 : ℕ
elfclass64 = 2

abbrev pub stt_func : ℕ
stt_func = 2

-- Objects with static storage begin with zeros.
unfoldable pub zero_ehdr : Ehdr
zero_ehdr = record {
  e_ident = replicate 16 0;
  e_type = 0;
  e_machine = 0;
  e_version = 0;
  e_entry = 0;
  e_phoff = 0;
  e_shoff = 0;
  e_flags = 0;
  e_ehsize = 0;
  e_phentsize = 0;
  e_phnum = 0;
  e_shentsize = 0;
  e_shnum = 0;
  e_shstrndx = 0;
}

unfoldable pub zero_phdr : Phdr
zero_phdr = record {
  p_type = 0;
  p_flags = 0;
  p_offset = 0;
  p_vaddr = 0;
  p_paddr = 0;
  p_filesz = 0;
  p_memsz = 0;
  p_align = 0;
}
