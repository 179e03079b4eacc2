-- ===== src/Elf/Layout/Symbols.antt =====
-- The symbols as bytes, in the order of Components/ElfProcessor/ELF.h, and that the layouts read every
-- field back from its place.
use universal_symbols.Prelude.{
  ℕ, ◌^◌, ◌<◌, ◌≡◌, refl, Bool, true, false, List, ◌++◌, length, if◌then◌else◌,
}
use universal_symbols.ReCore.Memory.{le_bytes, le_value, le_value-le_bytes}
use universal_symbols.Elf.{Sym}
use universal_symbols.Elf.Layout.{elf32_sym, elf64_sym}

-- `Elf32_Sym`
unfoldable pub sym32_bytes : Sym → List ℕ
sym32_bytes s =
    le_bytes 4 s.st_name
    ++ (le_bytes 4 s.st_value
        ++ (le_bytes 4 s.st_size
            ++ (le_bytes 1 s.st_info ++ (le_bytes 1 s.st_other ++ (le_bytes 2 s.st_shndx)))))

pub record IsSym32 (s : Sym) : Type 0 where
  pub st_name : s.st_name < 256 ^ 4
  pub st_info : s.st_info < 256 ^ 1
  pub st_other : s.st_other < 256 ^ 1
  pub st_shndx : s.st_shndx < 256 ^ 2
  pub st_value : s.st_value < 256 ^ 4
  pub st_size : s.st_size < 256 ^ 4

pub length-sym32_bytes : (s : Sym) → length (sym32_bytes s) ≡ 16
unfolding sym32_bytes le_bytes
length-sym32_bytes s = refl

pub elf32_sym-bytes : (s : Sym) → IsSym32 s → elf32_sym (sym32_bytes s) ≡ s
unfolding elf32_sym sym32_bytes le_bytes le_value
elf32_sym-bytes s ok = λ i. record {
  st_name = le_value-le_bytes 4 s.st_name ok.st_name i;
  st_info = le_value-le_bytes 1 s.st_info ok.st_info i;
  st_other = le_value-le_bytes 1 s.st_other ok.st_other i;
  st_shndx = le_value-le_bytes 2 s.st_shndx ok.st_shndx i;
  st_value = le_value-le_bytes 4 s.st_value ok.st_value i;
  st_size = le_value-le_bytes 4 s.st_size ok.st_size i;
}

-- `Elf64_Sym`
unfoldable pub sym64_bytes : Sym → List ℕ
sym64_bytes s =
    le_bytes 4 s.st_name
    ++ (le_bytes 1 s.st_info
        ++ (le_bytes 1 s.st_other
            ++ (le_bytes 2 s.st_shndx ++ (le_bytes 8 s.st_value ++ (le_bytes 8 s.st_size)))))

pub record IsSym64 (s : Sym) : Type 0 where
  pub st_name : s.st_name < 256 ^ 4
  pub st_info : s.st_info < 256 ^ 1
  pub st_other : s.st_other < 256 ^ 1
  pub st_shndx : s.st_shndx < 256 ^ 2
  pub st_value : s.st_value < 256 ^ 8
  pub st_size : s.st_size < 256 ^ 8

pub length-sym64_bytes : (s : Sym) → length (sym64_bytes s) ≡ 24
unfolding sym64_bytes le_bytes
length-sym64_bytes s = refl

pub elf64_sym-bytes : (s : Sym) → IsSym64 s → elf64_sym (sym64_bytes s) ≡ s
unfolding elf64_sym sym64_bytes le_bytes le_value
elf64_sym-bytes s ok = λ i. record {
  st_name = le_value-le_bytes 4 s.st_name ok.st_name i;
  st_info = le_value-le_bytes 1 s.st_info ok.st_info i;
  st_other = le_value-le_bytes 1 s.st_other ok.st_other i;
  st_shndx = le_value-le_bytes 2 s.st_shndx ok.st_shndx i;
  st_value = le_value-le_bytes 8 s.st_value ok.st_value i;
  st_size = le_value-le_bytes 8 s.st_size ok.st_size i;
}

-- By the class of the file.
unfoldable pub sym_bytes : Bool → Sym → List ℕ
sym_bytes is_64_bit x = if is_64_bit then sym64_bytes x else sym32_bytes x

unfoldable pub IsSym : Bool → Sym → Type 0
IsSym false x = IsSym32 x
IsSym true x = IsSym64 x
