-- ===== src/Elf/Layout/FileHeader.antt =====
-- The file header as bytes, in the order of Components/ElfProcessor/ELF.h, and that the layouts read every
-- field back from its place.
use universal_symbols.Prelude.{
  ℕ, ◌+◌, ◌∙◌, ap, arith, length-append, drop-append_add, take-append, ◌^◌, ◌<◌, ◌≡◌, refl, Bool,
  true, false, List, ◌++◌, length, if◌then◌else◌, take, drop,
}
use mathlib.Core.Path.{subst}
use universal_symbols.ReCore.Memory.{le_bytes, le_value, le_value-le_bytes}
use universal_symbols.Elf.{Ehdr}
use universal_symbols.Elf.Layout.{elf32_ehdr, elf64_ehdr, uint}

-- Behind the identification.
uint-append :
    (w k : ℕ) (ident rest : List ℕ)
    → length ident ≡ 16
    → uint w (16 + k) (ident ++ rest) ≡ uint w k rest
unfolding uint
uint-append w k ident rest e =
    let same : drop (16 + k) (ident ++ rest) ≡ drop k rest =
      subst (λ n. drop (n + k) (ident ++ rest) ≡ drop k rest) e (drop-append_add ident rest k) in
    ap (λ l. le_value (take w l)) same

ident-append : (ident rest : List ℕ) → length ident ≡ 16 → take 16 (ident ++ rest) ≡ ident
ident-append ident rest e = subst (λ n. take n (ident ++ rest) ≡ ident) e (take-append ident rest)

-- Behind the identification.
-- `Elf32_Ehdr`, behind the identification.
unfoldable pub ehdr32_rest : Ehdr → List ℕ
ehdr32_rest h =
    le_bytes 2 h.e_type
    ++ (le_bytes 2 h.e_machine
        ++ (le_bytes 4 h.e_version
            ++ (le_bytes 4 h.e_entry
                ++ (le_bytes 4 h.e_phoff
                    ++ (le_bytes 4 h.e_shoff
                        ++ (le_bytes 4 h.e_flags
                            ++ (le_bytes 2 h.e_ehsize
                                ++ (le_bytes 2 h.e_phentsize
                                    ++ (le_bytes 2 h.e_phnum
                                        ++ (le_bytes 2 h.e_shentsize
                                            ++ (le_bytes 2 h.e_shnum
                                                ++ (le_bytes 2 h.e_shstrndx))))))))))))

unfoldable pub ehdr32_bytes : Ehdr → List ℕ
unfolding ehdr32_rest
ehdr32_bytes h = h.e_ident ++ ehdr32_rest h

pub record IsEhdr32 (h : Ehdr) : Type 0 where
  pub e_ident : length h.e_ident ≡ 16
  pub e_type : h.e_type < 256 ^ 2
  pub e_machine : h.e_machine < 256 ^ 2
  pub e_version : h.e_version < 256 ^ 4
  pub e_entry : h.e_entry < 256 ^ 4
  pub e_phoff : h.e_phoff < 256 ^ 4
  pub e_shoff : h.e_shoff < 256 ^ 4
  pub e_flags : h.e_flags < 256 ^ 4
  pub e_ehsize : h.e_ehsize < 256 ^ 2
  pub e_phentsize : h.e_phentsize < 256 ^ 2
  pub e_phnum : h.e_phnum < 256 ^ 2
  pub e_shentsize : h.e_shentsize < 256 ^ 2
  pub e_shnum : h.e_shnum < 256 ^ 2
  pub e_shstrndx : h.e_shstrndx < 256 ^ 2

length-ehdr32_rest : (h : Ehdr) → length (ehdr32_rest h) ≡ 36
unfolding ehdr32_rest le_bytes
length-ehdr32_rest h = refl

pub length-ehdr32_bytes : (h : Ehdr) → IsEhdr32 h → length (ehdr32_bytes h) ≡ 52
unfolding ehdr32_bytes
length-ehdr32_bytes h ok =
    omega (arith, length-append h.e_ident (ehdr32_rest h), length-ehdr32_rest h, ok.e_ident)

pub elf32_ehdr-bytes : (h : Ehdr) → IsEhdr32 h → elf32_ehdr (ehdr32_bytes h) ≡ h
unfolding elf32_ehdr ehdr32_bytes ehdr32_rest uint le_bytes le_value
elf32_ehdr-bytes h ok =
    let at : (n k : ℕ) → uint n (16 + k) (h.e_ident ++ ehdr32_rest h) ≡ uint n k (ehdr32_rest h) =
      λ n k. uint-append n k h.e_ident (ehdr32_rest h) ok.e_ident in
    λ i. record {
      e_ident = ident-append h.e_ident (ehdr32_rest h) ok.e_ident i;
      e_type = (at 2 0 ∙ le_value-le_bytes 2 h.e_type ok.e_type) i;
      e_machine = (at 2 2 ∙ le_value-le_bytes 2 h.e_machine ok.e_machine) i;
      e_version = (at 4 4 ∙ le_value-le_bytes 4 h.e_version ok.e_version) i;
      e_entry = (at 4 8 ∙ le_value-le_bytes 4 h.e_entry ok.e_entry) i;
      e_phoff = (at 4 12 ∙ le_value-le_bytes 4 h.e_phoff ok.e_phoff) i;
      e_shoff = (at 4 16 ∙ le_value-le_bytes 4 h.e_shoff ok.e_shoff) i;
      e_flags = (at 4 20 ∙ le_value-le_bytes 4 h.e_flags ok.e_flags) i;
      e_ehsize = (at 2 24 ∙ le_value-le_bytes 2 h.e_ehsize ok.e_ehsize) i;
      e_phentsize = (at 2 26 ∙ le_value-le_bytes 2 h.e_phentsize ok.e_phentsize) i;
      e_phnum = (at 2 28 ∙ le_value-le_bytes 2 h.e_phnum ok.e_phnum) i;
      e_shentsize = (at 2 30 ∙ le_value-le_bytes 2 h.e_shentsize ok.e_shentsize) i;
      e_shnum = (at 2 32 ∙ le_value-le_bytes 2 h.e_shnum ok.e_shnum) i;
      e_shstrndx = (at 2 34 ∙ le_value-le_bytes 2 h.e_shstrndx ok.e_shstrndx) i;
    }

-- `Elf64_Ehdr`, behind the identification.
unfoldable pub ehdr64_rest : Ehdr → List ℕ
ehdr64_rest h =
    le_bytes 2 h.e_type
    ++ (le_bytes 2 h.e_machine
        ++ (le_bytes 4 h.e_version
            ++ (le_bytes 8 h.e_entry
                ++ (le_bytes 8 h.e_phoff
                    ++ (le_bytes 8 h.e_shoff
                        ++ (le_bytes 4 h.e_flags
                            ++ (le_bytes 2 h.e_ehsize
                                ++ (le_bytes 2 h.e_phentsize
                                    ++ (le_bytes 2 h.e_phnum
                                        ++ (le_bytes 2 h.e_shentsize
                                            ++ (le_bytes 2 h.e_shnum
                                                ++ (le_bytes 2 h.e_shstrndx))))))))))))

unfoldable pub ehdr64_bytes : Ehdr → List ℕ
unfolding ehdr64_rest
ehdr64_bytes h = h.e_ident ++ ehdr64_rest h

pub record IsEhdr64 (h : Ehdr) : Type 0 where
  pub e_ident : length h.e_ident ≡ 16
  pub e_type : h.e_type < 256 ^ 2
  pub e_machine : h.e_machine < 256 ^ 2
  pub e_version : h.e_version < 256 ^ 4
  pub e_entry : h.e_entry < 256 ^ 8
  pub e_phoff : h.e_phoff < 256 ^ 8
  pub e_shoff : h.e_shoff < 256 ^ 8
  pub e_flags : h.e_flags < 256 ^ 4
  pub e_ehsize : h.e_ehsize < 256 ^ 2
  pub e_phentsize : h.e_phentsize < 256 ^ 2
  pub e_phnum : h.e_phnum < 256 ^ 2
  pub e_shentsize : h.e_shentsize < 256 ^ 2
  pub e_shnum : h.e_shnum < 256 ^ 2
  pub e_shstrndx : h.e_shstrndx < 256 ^ 2

length-ehdr64_rest : (h : Ehdr) → length (ehdr64_rest h) ≡ 48
unfolding ehdr64_rest le_bytes
length-ehdr64_rest h = refl

pub length-ehdr64_bytes : (h : Ehdr) → IsEhdr64 h → length (ehdr64_bytes h) ≡ 64
unfolding ehdr64_bytes
length-ehdr64_bytes h ok =
    omega (arith, length-append h.e_ident (ehdr64_rest h), length-ehdr64_rest h, ok.e_ident)

pub elf64_ehdr-bytes : (h : Ehdr) → IsEhdr64 h → elf64_ehdr (ehdr64_bytes h) ≡ h
unfolding elf64_ehdr ehdr64_bytes ehdr64_rest uint le_bytes le_value
elf64_ehdr-bytes h ok =
    let at : (n k : ℕ) → uint n (16 + k) (h.e_ident ++ ehdr64_rest h) ≡ uint n k (ehdr64_rest h) =
      λ n k. uint-append n k h.e_ident (ehdr64_rest h) ok.e_ident in
    λ i. record {
      e_ident = ident-append h.e_ident (ehdr64_rest h) ok.e_ident i;
      e_type = (at 2 0 ∙ le_value-le_bytes 2 h.e_type ok.e_type) i;
      e_machine = (at 2 2 ∙ le_value-le_bytes 2 h.e_machine ok.e_machine) i;
      e_version = (at 4 4 ∙ le_value-le_bytes 4 h.e_version ok.e_version) i;
      e_entry = (at 8 8 ∙ le_value-le_bytes 8 h.e_entry ok.e_entry) i;
      e_phoff = (at 8 16 ∙ le_value-le_bytes 8 h.e_phoff ok.e_phoff) i;
      e_shoff = (at 8 24 ∙ le_value-le_bytes 8 h.e_shoff ok.e_shoff) i;
      e_flags = (at 4 32 ∙ le_value-le_bytes 4 h.e_flags ok.e_flags) i;
      e_ehsize = (at 2 36 ∙ le_value-le_bytes 2 h.e_ehsize ok.e_ehsize) i;
      e_phentsize = (at 2 38 ∙ le_value-le_bytes 2 h.e_phentsize ok.e_phentsize) i;
      e_phnum = (at 2 40 ∙ le_value-le_bytes 2 h.e_phnum ok.e_phnum) i;
      e_shentsize = (at 2 42 ∙ le_value-le_bytes 2 h.e_shentsize ok.e_shentsize) i;
      e_shnum = (at 2 44 ∙ le_value-le_bytes 2 h.e_shnum ok.e_shnum) i;
      e_shstrndx = (at 2 46 ∙ le_value-le_bytes 2 h.e_shstrndx ok.e_shstrndx) i;
    }

-- By the class of the file.
unfoldable pub ehdr_bytes : Bool → Ehdr → List ℕ
ehdr_bytes is_64_bit x = if is_64_bit then ehdr64_bytes x else ehdr32_bytes x

unfoldable pub IsEhdr : Bool → Ehdr → Type 0
IsEhdr false x = IsEhdr32 x
IsEhdr true x = IsEhdr64 x
