-- ===== src/Elf/Parse/Short.antt =====
-- What the parser makes of a file that is too short for any header.
use universal_symbols.Prelude.{
  drop_all, ℕ, ◌+◌, ◌<◌, ◌≡◌, refl, ap, ◌∙◌, Bool, true, false, List, [], some, ◌==◌, leb, length,
  replicate, arith, Bool-cases, inl, inr, take, drop,
}
use universal_symbols.ReCore.Memory.{size_mod, le_value}
use universal_symbols.ReCore.Buffer
use universal_symbols.ReCore.Buffer.{Buffer, reset}
use universal_symbols.ReCore.Reader.{File, load_from_file, read}
use universal_symbols.ReCore.Reader.Bounds.{IsLoaded, read_impl-IsLoaded}
use universal_symbols.Usym.{Usym}
use universal_symbols.Usym
use universal_symbols.Elf.{zero_ehdr, zero_phdr}
use universal_symbols.Elf.Layout.{elf32_ehdr, elf64_ehdr, elf32_phdr, elf64_phdr, uint}
use universal_symbols.Elf.Parse.{
  ElfEx, seek, read_struct, parse_ehdr, parse_phdr, read_file_class, read_elf_program_header,
  read_section_headers, read_symbols, read_named_symbols, name_sections, find_symtab, times, parse,
  create_usym_from_file,
}

zero_ehdr32 : elf32_ehdr (replicate 52 0) ≡ zero_ehdr
unfolding elf32_ehdr zero_ehdr uint le_value replicate
zero_ehdr32 = refl

zero_ehdr64 : elf64_ehdr (replicate 64 0) ≡ zero_ehdr
unfolding elf64_ehdr zero_ehdr uint le_value replicate
zero_ehdr64 = refl

zero_phdr32 : elf32_phdr (replicate 32 0) ≡ zero_phdr
unfolding elf32_phdr zero_phdr uint le_value replicate
zero_phdr32 = refl

zero_phdr64 : elf64_phdr (replicate 56 0) ≡ zero_phdr
unfolding elf64_phdr zero_phdr uint le_value replicate
zero_phdr64 = refl

-- A structure that does not fit keeps its zeros.
read_struct_fails :
    {A : Type 0} (width : ℕ) (layout : List ℕ → A) (r : Buffer) (bytes : List ℕ)
    → IsLoaded r bytes
    → r.position ≡ 0
    → length bytes < width
    → width < size_mod
    → read_struct width layout r ≡ some (r, layout (replicate width 0))
unfolding read_struct read
read_struct_fails width layout r bytes h at short small =
    let past : leb (r.position + width) (length bytes) ≡ false = ground arith in
    let got = read_impl-IsLoaded width false r bytes h (omega (arith, at, small)) in
    rw (got, past) refl

-- Byte 4 says the class; without it the file is no 64-bit one.
abbrev pub class_of : List ℕ → Bool
class_of bytes = le_value (take 1 (drop 4 bytes)) == 2

module _ (bytes : List ℕ) (short : length bytes < 32) where
  parse_ehdr_short :
      (class : Bool) (r : Buffer)
      → IsLoaded r bytes
      → r.position ≡ 0
      → parse_ehdr class r ≡ some (r, zero_ehdr)
  unfolding parse_ehdr
  parse_ehdr_short true r h at =
      read_struct_fails 64 elf64_ehdr r bytes h at (omega (arith, short)) (omega arith)
      ∙ ap (λ x. some (r, x)) zero_ehdr64
  parse_ehdr_short false r h at =
      read_struct_fails 52 elf32_ehdr r bytes h at (omega (arith, short)) (omega arith)
      ∙ ap (λ x. some (r, x)) zero_ehdr32

  parse_phdr_short :
      (class : Bool) (r : Buffer)
      → IsLoaded r bytes
      → r.position ≡ 0
      → parse_phdr class r ≡ some (r, zero_phdr)
  unfolding parse_phdr
  parse_phdr_short true r h at =
      read_struct_fails 56 elf64_phdr r bytes h at (omega (arith, short)) (omega arith)
      ∙ ap (λ x. some (r, x)) zero_phdr64
  parse_phdr_short false r h at =
      read_struct_fails 32 elf32_phdr r bytes h at short (omega arith)
      ∙ ap (λ x. some (r, x)) zero_phdr32

  read_file_class_short :
      (e : ElfEx) (r : Buffer)
      → IsLoaded r bytes
      → read_file_class e r ≡ some (reset r, record e { is_64_bit = class_of bytes })
  unfolding read_file_class reset read le_value
  read_file_class_short e r h =
      let h1 : IsLoaded (seek 4 r) bytes = record { memory = h.memory; size = h.size } in
      let got = read_impl-IsLoaded 1 false (seek 4 r) bytes h1 (omega arith) in
      elim (Bool-cases (leb 5 (length bytes))) [
        | inl e1 ↦ rw (got, e1) refl
        | inr e1 ↦
            let behind : drop 4 bytes ≡ [] = drop_all 4 bytes (ground arith) in
            rw (got, e1, behind) refl
      ]

  -- A file of less bytes than any of the headers, whatever they are, is no error: the parser returns
  -- true with the class that the fifth byte says, headers of zeros, no sections and no symbols, and the
  -- processor returns an empty `USYM`.
  pub create_usym_from_file_short :
      (e : ElfEx)
      → create_usym_from_file (File.readable bytes) e
        ≡ some (
          record {
            is_64_bit = class_of bytes;
            elf_header = record zero_ehdr { e_ident = e.elf_header.e_ident };
            program_header = zero_phdr;
            sections = [];
            symbols = [];
          },
          some Usym.new,
        )
  unfolding create_usym_from_file parse load_from_file read_elf_program_header read_section_headers
      read_symbols read_named_symbols name_sections find_symtab times reset zero_ehdr
  create_usym_from_file_short e =
      let r = record Buffer.new { size = length bytes; memory = some bytes } in
      let h : IsLoaded r bytes = record { memory = refl; size = refl } in
      let h1 : IsLoaded (reset r) bytes = record { memory = refl; size = refl } in
      let one = read_file_class_short e r h in
      let two = parse_ehdr_short (class_of bytes) (reset r) h1 refl in
      let three = parse_phdr_short (class_of bytes) (reset r) h1 refl in rw (one, two, three) refl
