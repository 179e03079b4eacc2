-- ===== src/Elf/Parse/Names.antt =====
-- The names of sections and symbols, and the sections that are found by name.
use universal_symbols.Prelude.{
  ℕ, ◌+◌, ◌%◌, ◌<◌, ◌≡◌, refl, sym, ◌⊎◌, inl, inr, false, true, List, [], ◌∷◌, ◌++◌, map, some,
  ◌==◌, length, All, arith, Text, codes, text_eq, get_elem?,
}
use universal_symbols.ReCore.Memory.{size_mod}
use universal_symbols.ReCore.Buffer.{Buffer, advance}
use universal_symbols.ReCore.Reader.{read_string}
use universal_symbols.ReCore.Reader.Bounds.{IsLoaded}
use universal_symbols.ReCore.Reader.Stands.{Stands, IsNonzero, read_string-Stands}
use universal_symbols.Elf.{Shdr}
use universal_symbols.Elf.Parse.{
  Section, Symbol, ElfEx, seek, unnamed_section, unnamed_symbol, get_section_name, name_sections,
  name_symbols, find_symtab, find_strtab,
}

-- A name with its final zero.
pub record IsCString (bytes : List ℕ) (at : ℕ) (name : Text) : Type 0 where
  pub nonzero : All IsNonzero name
  pub stands : Stands bytes at (name ++ (0 ∷ []))

-- The name of a section in the string table.
abbrev pub SectionNamed : List ℕ → Section → Section → Type 0
SectionNamed bytes strings s =
    IsCString bytes ((strings.header.sh_offset + s.header.sh_name) % size_mod) s.name

-- A symbol without a name, or its name in the string table.
abbrev pub SymbolNamed : List ℕ → Shdr → Symbol → Type 0
SymbolNamed bytes strings s =
    ((s.sym.st_name ≡ 0) × (s.name ≡ []))
    ⊎ ((0 < s.sym.st_name)
        × (IsCString bytes ((strings.sh_offset + s.sym.st_name) % size_mod) s.name))

read_name :
    (r : Buffer) (bytes : List ℕ) (at : ℕ) (name : Text)
    → IsLoaded r bytes
    → IsCString bytes at name
    → read_string (seek at r) ≡ some (advance (length name + 1) (seek at r), name)
read_name r bytes at name h c =
    read_string-Stands (seek at r) bytes name (record { memory = h.memory; size = h.size })
      c.nonzero c.stands

pub name_sections_lem :
    (e : ElfEx) (bytes : List ℕ) (strings : Section)
    → 0 < e.elf_header.e_shstrndx
    → get_elem? e.sections e.elf_header.e_shstrndx ≡ some strings
    → (ss : List Section) (r : Buffer) → IsLoaded r bytes
    → All (SectionNamed bytes strings) ss
    → name_sections e (map (λ s. unnamed_section s.header) ss) r ≡ some (r, ss)
unfolding name_sections get_section_name advance
name_sections_lem e bytes strings some_table found [] r h named = refl
name_sections_lem e bytes strings some_table found (s ∷ ss) r h named =
    let has : (e.elf_header.e_shstrndx == 0) ≡ false = ground arith in
    let here =
      read_name r bytes ((strings.header.sh_offset + s.header.sh_name) % size_mod) s.name h
        named.0 in
    let there = name_sections_lem e bytes strings some_table found ss r h named.1 in
    rw (has, found, here, there) refl

pub name_symbols_lem :
    (strings : Shdr) (bytes : List ℕ) (ss : List Symbol) (r : Buffer)
    → IsLoaded r bytes
    → All (SymbolNamed bytes strings) ss
    → (r1 : Buffer) × (name_symbols strings (map (λ s. unnamed_symbol s.sym) ss) r ≡ some (r1, ss))
unfolding name_symbols advance
name_symbols_lem strings bytes [] r h named = (r, refl)
name_symbols_lem strings bytes (s ∷ ss) r h named = elim named.0 [
  | inl anonymous ↦
      let no_name : (s.sym.st_name == 0) ≡ true = ground (arith, anonymous.0) in
      let (r1, there) = name_symbols_lem strings bytes ss r h named.1 in
      (r1, rw (no_name, there) (λ i. some (r1, record s { name = sym anonymous.1 i } ∷ ss)))
  | inr c ↦
      let at = (strings.sh_offset + s.sym.st_name) % size_mod in
      let has : (s.sym.st_name == 0) ≡ false = ground (arith, c.0) in
      let here = read_name r bytes at s.name h c.1 in
      let (r1, there) =
        name_symbols_lem strings bytes ss (advance (length s.name + 1) (seek at r))
          (record { memory = h.memory; size = h.size }) named.1 in
      (r1, rw (has, here, there) refl)
]

abbrev pub IsNamed : Text → Section → Type 0
IsNamed name s = text_eq s.name name ≡ true

abbrev pub IsNotNamed : Text → Section → Type 0
IsNotNamed name s = text_eq s.name name ≡ false

find_symtab-none :
    (at : ℕ × ℕ) (ys : List Section)
    → All (IsNotNamed (codes ".symtab")) ys
    → find_symtab at ys ≡ at
unfolding find_symtab
find_symtab-none at [] none_left = refl
find_symtab-none at (s ∷ ys) none_left = rw none_left.0 (find_symtab-none at ys none_left.1)

-- The last section of the name counts.
pub find_symtab_last :
    (xs : List Section) (at : ℕ × ℕ) (s : Section) (ys : List Section)
    → IsNamed (codes ".symtab") s
    → All (IsNotNamed (codes ".symtab")) ys
    → find_symtab at (xs ++ (s ∷ ys)) ≡ (s.header.sh_offset, s.header.sh_size)
unfolding find_symtab
find_symtab_last [] at s ys named none_left =
    rw (find_symtab, named) (find_symtab-none _ ys none_left)
find_symtab_last (x ∷ xs) at s ys named none_left = find_symtab_last xs _ s ys named none_left

-- The first section of the name counts.
pub find_strtab_first :
    (xs : List Section) (s : Section) (ys : List Section)
    → All (IsNotNamed (codes ".strtab")) xs
    → IsNamed (codes ".strtab") s
    → find_strtab (xs ++ (s ∷ ys)) ≡ some s
unfolding find_strtab
find_strtab_first [] s ys none_before named = rw named refl
find_strtab_first (x ∷ xs) s ys none_before named =
    rw none_before.0 (find_strtab_first xs s ys none_before.1 named)
