-- ===== src/Elf/Layout/Segments.antt =====
-- The program headers as bytes, in the order of Components/ElfProcessor/ELF.h, and that the layouts read every
-- field back from its place.
use universal_symbols.Prelude.{
  ℕ, ◌^◌, ◌<◌, ◌≡◌, refl, Bool, true, false, List, ◌++◌, length, if◌then◌else◌,
}
use universal_symbols.ReCore.Memory.{le_bytes, le_value, le_value-le_bytes}
use universal_symbols.Elf.{Phdr}
use universal_symbols.Elf.Layout.{elf32_phdr, elf64_phdr}

-- `Elf32_Phdr`
unfoldable pub phdr32_bytes : Phdr → List ℕ
phdr32_bytes p =
    le_bytes 4 p.p_type
    ++ (le_bytes 4 p.p_offset
        ++ (le_bytes 4 p.p_vaddr
            ++ (le_bytes 4 p.p_paddr
                ++ (le_bytes 4 p.p_filesz
                    ++ (le_bytes 4 p.p_memsz
                        ++ (le_bytes 4 p.p_flags ++ (le_bytes 4 p.p_align)))))))

pub record IsPhdr32 (p : Phdr) : Type 0 where
  pub p_type : p.p_type < 256 ^ 4
  pub p_flags : p.p_flags < 256 ^ 4
  pub p_offset : p.p_offset < 256 ^ 4
  pub p_vaddr : p.p_vaddr < 256 ^ 4
  pub p_paddr : p.p_paddr < 256 ^ 4
  pub p_filesz : p.p_filesz < 256 ^ 4
  pub p_memsz : p.p_memsz < 256 ^ 4
  pub p_align : p.p_align < 256 ^ 4

pub length-phdr32_bytes : (p : Phdr) → length (phdr32_bytes p) ≡ 32
unfolding phdr32_bytes le_bytes
length-phdr32_bytes p = refl

pub elf32_phdr-bytes : (p : Phdr) → IsPhdr32 p → elf32_phdr (phdr32_bytes p) ≡ p
unfolding elf32_phdr phdr32_bytes le_bytes le_value
elf32_phdr-bytes p ok = λ i. record {
  p_type = le_value-le_bytes 4 p.p_type ok.p_type i;
  p_flags = le_value-le_bytes 4 p.p_flags ok.p_flags i;
  p_offset = le_value-le_bytes 4 p.p_offset ok.p_offset i;
  p_vaddr = le_value-le_bytes 4 p.p_vaddr ok.p_vaddr i;
  p_paddr = le_value-le_bytes 4 p.p_paddr ok.p_paddr i;
  p_filesz = le_value-le_bytes 4 p.p_filesz ok.p_filesz i;
  p_memsz = le_value-le_bytes 4 p.p_memsz ok.p_memsz i;
  p_align = le_value-le_bytes 4 p.p_align ok.p_align i;
}

-- `Elf64_Phdr`
unfoldable pub phdr64_bytes : Phdr → List ℕ
phdr64_bytes p =
    le_bytes 4 p.p_type
    ++ (le_bytes 4 p.p_flags
        ++ (le_bytes 8 p.p_offset
            ++ (le_bytes 8 p.p_vaddr
                ++ (le_bytes 8 p.p_paddr
                    ++ (le_bytes 8 p.p_filesz
                        ++ (le_bytes 8 p.p_memsz ++ (le_bytes 8 p.p_align)))))))

pub record IsPhdr64 (p : Phdr) : Type 0 where
  pub p_type : p.p_type < 256 ^ 4
  pub p_flags : p.p_flags < 256 ^ 4
  pub p_offset : p.p_offset < 256 ^ 8
  pub p_vaddr : p.p_vaddr < 256 ^ 8
  pub p_paddr : p.p_paddr < 256 ^ 8
  pub p_filesz : p.p_filesz < 256 ^ 8
  pub p_memsz : p.p_memsz < 256 ^ 8
  pub p_align : p.p_align < 256 ^ 8

pub length-phdr64_bytes : (p : Phdr) → length (phdr64_bytes p) ≡ 56
unfolding phdr64_bytes le_bytes
length-phdr64_bytes p = refl

pub elf64_phdr-bytes : (p : Phdr) → IsPhdr64 p → elf64_phdr (phdr64_bytes p) ≡ p
unfolding elf64_phdr phdr64_bytes le_bytes le_value
elf64_phdr-bytes p ok = λ i. record {
  p_type = le_value-le_bytes 4 p.p_type ok.p_type i;
  p_flags = le_value-le_bytes 4 p.p_flags ok.p_flags i;
  p_offset = le_value-le_bytes 8 p.p_offset ok.p_offset i;
  p_vaddr = le_value-le_bytes 8 p.p_vaddr ok.p_vaddr i;
  p_paddr = le_value-le_bytes 8 p.p_paddr ok.p_paddr i;
  p_filesz = le_value-le_bytes 8 p.p_filesz ok.p_filesz i;
  p_memsz = le_value-le_bytes 8 p.p_memsz ok.p_memsz i;
  p_align = le_value-le_bytes 8 p.p_align ok.p_align i;
}

-- By the class of the file.
unfoldable pub phdr_bytes : Bool → Phdr → List ℕ
phdr_bytes is_64_bit x = if is_64_bit then phdr64_bytes x else phdr32_bytes x

unfoldable pub IsPhdr : Bool → Phdr → Type 0
IsPhdr false x = IsPhdr32 x
IsPhdr true x = IsPhdr64 x
