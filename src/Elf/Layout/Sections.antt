-- ===== src/Elf/Layout/Sections.antt =====
-- The section headers as bytes, in the order of Components/ElfProcessor/ELF.h, and that the layouts read every
-- field back from its place.
use universal_symbols.Prelude.{
  ℕ, ◌^◌, ◌<◌, ◌≡◌, refl, Bool, true, false, List, ◌++◌, length, if◌then◌else◌,
}
use universal_symbols.ReCore.Memory.{le_bytes, le_value, le_value-le_bytes}
use universal_symbols.Elf.{Shdr}
use universal_symbols.Elf.Layout.{elf32_shdr, elf64_shdr}

-- `Elf32_Shdr`
unfoldable pub shdr32_bytes : Shdr → List ℕ
shdr32_bytes h =
    le_bytes 4 h.sh_name
    ++ (le_bytes 4 h.sh_type
        ++ (le_bytes 4 h.sh_flags
            ++ (le_bytes 4 h.sh_addr
                ++ (le_bytes 4 h.sh_offset
                    ++ (le_bytes 4 h.sh_size
                        ++ (le_bytes 4 h.sh_link
                            ++ (le_bytes 4 h.sh_info
                                ++ (le_bytes 4 h.sh_addralign ++ (le_bytes 4 h.sh_entsize)))))))))

pub record IsShdr32 (h : Shdr) : Type 0 where
  pub sh_name : h.sh_name < 256 ^ 4
  pub sh_type : h.sh_type < 256 ^ 4
  pub sh_flags : h.sh_flags < 256 ^ 4
  pub sh_addr : h.sh_addr < 256 ^ 4
  pub sh_offset : h.sh_offset < 256 ^ 4
  pub sh_size : h.sh_size < 256 ^ 4
  pub sh_link : h.sh_link < 256 ^ 4
  pub sh_info : h.sh_info < 256 ^ 4
  pub sh_addralign : h.sh_addralign < 256 ^ 4
  pub sh_entsize : h.sh_entsize < 256 ^ 4

pub length-shdr32_bytes : (h : Shdr) → length (shdr32_bytes h) ≡ 40
unfolding shdr32_bytes le_bytes
length-shdr32_bytes h = refl

pub elf32_shdr-bytes : (h : Shdr) → IsShdr32 h → elf32_shdr (shdr32_bytes h) ≡ h
unfolding elf32_shdr shdr32_bytes le_bytes le_value
elf32_shdr-bytes h ok = λ i. record {
  sh_name = le_value-le_bytes 4 h.sh_name ok.sh_name i;
  sh_type = le_value-le_bytes 4 h.sh_type ok.sh_type i;
  sh_flags = le_value-le_bytes 4 h.sh_flags ok.sh_flags i;
  sh_addr = le_value-le_bytes 4 h.sh_addr ok.sh_addr i;
  sh_offset = le_value-le_bytes 4 h.sh_offset ok.sh_offset i;
  sh_size = le_value-le_bytes 4 h.sh_size ok.sh_size i;
  sh_link = le_value-le_bytes 4 h.sh_link ok.sh_link i;
  sh_info = le_value-le_bytes 4 h.sh_info ok.sh_info i;
  sh_addralign = le_value-le_bytes 4 h.sh_addralign ok.sh_addralign i;
  sh_entsize = le_value-le_bytes 4 h.sh_entsize ok.sh_entsize i;
}

-- `Elf64_Shdr`
unfoldable pub shdr64_bytes : Shdr → List ℕ
shdr64_bytes h =
    le_bytes 4 h.sh_name
    ++ (le_bytes 4 h.sh_type
        ++ (le_bytes 8 h.sh_flags
            ++ (le_bytes 8 h.sh_addr
                ++ (le_bytes 8 h.sh_offset
                    ++ (le_bytes 8 h.sh_size
                        ++ (le_bytes 4 h.sh_link
                            ++ (le_bytes 4 h.sh_info
                                ++ (le_bytes 8 h.sh_addralign ++ (le_bytes 8 h.sh_entsize)))))))))

pub record IsShdr64 (h : Shdr) : Type 0 where
  pub sh_name : h.sh_name < 256 ^ 4
  pub sh_type : h.sh_type < 256 ^ 4
  pub sh_flags : h.sh_flags < 256 ^ 8
  pub sh_addr : h.sh_addr < 256 ^ 8
  pub sh_offset : h.sh_offset < 256 ^ 8
  pub sh_size : h.sh_size < 256 ^ 8
  pub sh_link : h.sh_link < 256 ^ 4
  pub sh_info : h.sh_info < 256 ^ 4
  pub sh_addralign : h.sh_addralign < 256 ^ 8
  pub sh_entsize : h.sh_entsize < 256 ^ 8

pub length-shdr64_bytes : (h : Shdr) → length (shdr64_bytes h) ≡ 64
unfolding shdr64_bytes le_bytes
length-shdr64_bytes h = refl

pub elf64_shdr-bytes : (h : Shdr) → IsShdr64 h → elf64_shdr (shdr64_bytes h) ≡ h
unfolding elf64_shdr shdr64_bytes le_bytes le_value
elf64_shdr-bytes h ok = λ i. record {
  sh_name = le_value-le_bytes 4 h.sh_name ok.sh_name i;
  sh_type = le_value-le_bytes 4 h.sh_type ok.sh_type i;
  sh_flags = le_value-le_bytes 8 h.sh_flags ok.sh_flags i;
  sh_addr = le_value-le_bytes 8 h.sh_addr ok.sh_addr i;
  sh_offset = le_value-le_bytes 8 h.sh_offset ok.sh_offset i;
  sh_size = le_value-le_bytes 8 h.sh_size ok.sh_size i;
  sh_link = le_value-le_bytes 4 h.sh_link ok.sh_link i;
  sh_info = le_value-le_bytes 4 h.sh_info ok.sh_info i;
  sh_addralign = le_value-le_bytes 8 h.sh_addralign ok.sh_addralign i;
  sh_entsize = le_value-le_bytes 8 h.sh_entsize ok.sh_entsize i;
}

-- By the class of the file.
unfoldable pub shdr_bytes : Bool → Shdr → List ℕ
shdr_bytes is_64_bit x = if is_64_bit then shdr64_bytes x else shdr32_bytes x

unfoldable pub IsShdr : Bool → Shdr → Type 0
IsShdr false x = IsShdr32 x
IsShdr true x = IsShdr64 x
