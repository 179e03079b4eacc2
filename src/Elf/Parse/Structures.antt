-- ===== src/Elf/Parse/Structures.antt =====
-- Reading the structures of a file of either class.
use universal_symbols.Prelude.{
  ℕ, ◌+◌, ◌<◌, ◌≡◌, refl, ap, sym, ◌∙◌, Bool, true, false, List, some, length,
}
use universal_symbols.ReCore.Memory.{size_mod}
use universal_symbols.ReCore.Buffer.{Buffer}
use universal_symbols.ReCore.Reader.{read}
use universal_symbols.ReCore.Reader.Bounds.{IsLoaded}
use universal_symbols.ReCore.Reader.Stands.{Stands, read-Stands}
use universal_symbols.Elf.{Ehdr, Phdr, Shdr, Sym}
use universal_symbols.Elf.Layout.{
  elf32_ehdr, elf64_ehdr, elf32_phdr, elf64_phdr, elf32_shdr, elf64_shdr, elf64_sym, elf64_sym_size,
}
use universal_symbols.Elf.Layout.FileHeader.{
  ehdr_bytes, ehdr32_bytes, ehdr64_bytes, IsEhdr, length-ehdr32_bytes, length-ehdr64_bytes,
  elf32_ehdr-bytes, elf64_ehdr-bytes,
}
use universal_symbols.Elf.Layout.Segments.{
  phdr_bytes, phdr32_bytes, phdr64_bytes, IsPhdr, length-phdr32_bytes, length-phdr64_bytes,
  elf32_phdr-bytes, elf64_phdr-bytes,
}
use universal_symbols.Elf.Layout.Sections.{
  shdr_bytes, shdr32_bytes, shdr64_bytes, IsShdr, length-shdr32_bytes, length-shdr64_bytes,
  elf32_shdr-bytes, elf64_shdr-bytes,
}
use universal_symbols.Elf.Layout.Symbols.{sym64_bytes, IsSym64, length-sym64_bytes, elf64_sym-bytes}
use universal_symbols.Elf.Parse.{read_struct, parse_ehdr, parse_phdr, parse_shdr}

-- The reader behind `n` more bytes.
abbrev pub behind : ℕ → Buffer → Buffer
behind n r = record r { position = r.position + n }

module _ (r : Buffer) (bytes : List ℕ) (h : IsLoaded r bytes)
    (small : length bytes < size_mod) where
  pub read_struct-Stands :
      {A : Type 0} (width : ℕ) (layout : List ℕ → A) (ys : List ℕ) (x : A)
      → length ys ≡ width
      → layout ys ≡ x
      → Stands bytes r.position ys
      → read_struct width layout r ≡ some (behind (length ys) r, x)
  unfolding read_struct
  read_struct-Stands width layout ys x long same s =
      let got : read width r ≡ some (behind (length ys) r, some ys) =
        ap (λ n. read n r) (sym long) ∙ read-Stands r bytes ys h small s in
      rw (got, same) refl

  pub parse_ehdr-Stands :
      (is_64_bit : Bool) (x : Ehdr)
      → IsEhdr is_64_bit x
      → Stands bytes r.position (ehdr_bytes is_64_bit x)
      → parse_ehdr is_64_bit r ≡ some (behind (length (ehdr_bytes is_64_bit x)) r, x)
  unfolding parse_ehdr ehdr_bytes IsEhdr
  parse_ehdr-Stands false x ok =
      read_struct-Stands 52 elf32_ehdr (ehdr32_bytes x) x (length-ehdr32_bytes x ok)
        (elf32_ehdr-bytes x ok)
  parse_ehdr-Stands true x ok =
      read_struct-Stands 64 elf64_ehdr (ehdr64_bytes x) x (length-ehdr64_bytes x ok)
        (elf64_ehdr-bytes x ok)

  pub parse_phdr-Stands :
      (is_64_bit : Bool) (x : Phdr)
      → IsPhdr is_64_bit x
      → Stands bytes r.position (phdr_bytes is_64_bit x)
      → parse_phdr is_64_bit r ≡ some (behind (length (phdr_bytes is_64_bit x)) r, x)
  unfolding parse_phdr phdr_bytes IsPhdr
  parse_phdr-Stands false x ok =
      read_struct-Stands 32 elf32_phdr (phdr32_bytes x) x (length-phdr32_bytes x)
        (elf32_phdr-bytes x ok)
  parse_phdr-Stands true x ok =
      read_struct-Stands 56 elf64_phdr (phdr64_bytes x) x (length-phdr64_bytes x)
        (elf64_phdr-bytes x ok)

  pub parse_shdr-Stands :
      (is_64_bit : Bool) (x : Shdr)
      → IsShdr is_64_bit x
      → Stands bytes r.position (shdr_bytes is_64_bit x)
      → parse_shdr is_64_bit r ≡ some (behind (length (shdr_bytes is_64_bit x)) r, x)
  unfolding parse_shdr shdr_bytes IsShdr
  parse_shdr-Stands false x ok =
      read_struct-Stands 40 elf32_shdr (shdr32_bytes x) x (length-shdr32_bytes x)
        (elf32_shdr-bytes x ok)
  parse_shdr-Stands true x ok =
      read_struct-Stands 64 elf64_shdr (shdr64_bytes x) x (length-shdr64_bytes x)
        (elf64_shdr-bytes x ok)

  pub read_sym64-Stands :
      (x : Sym)
      → IsSym64 x
      → Stands bytes r.position (sym64_bytes x)
      → read_struct elf64_sym_size elf64_sym r ≡ some (behind (length (sym64_bytes x)) r, x)
  read_sym64-Stands x ok =
      read_struct-Stands 24 elf64_sym _ x (length-sym64_bytes x) (elf64_sym-bytes x ok)
