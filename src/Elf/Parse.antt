-- ===== src/Elf/Parse.antt =====
-- Components/ElfProcessor/ElfInterface.cpp: the parser `ElfEx`. `none` is undefined behaviour: a read
-- outside the file's block, or an index outside the sections.
pub mod Structures
pub mod Tables
pub mod Names
pub mod Described
pub mod Image
pub mod Narrow
pub mod Short
use universal_symbols.Prelude.{
  ℕ, zero, suc, ◌+◌, ◌/◌, ◌%◌, Bool, true, false, not, List, [], ◌∷◌, map, Option, none, some,
  ◌>>=◌, ◌==◌, if◌then◌else◌, Text, codes, text_eq, get_elem?, replicate,
}
use universal_symbols.ReCore.Memory.{size_mod, le_value}
use universal_symbols.ReCore.Buffer
use universal_symbols.ReCore.Buffer.{Buffer, reset}
use universal_symbols.ReCore.Reader.{File, load_from_file, read, read_string}
use universal_symbols.Usym
use universal_symbols.Usym.{Usym}
use universal_symbols.Elf.{
  Ehdr, Phdr, Shdr, Sym, get_type, elfclass64, stt_func, zero_ehdr, zero_phdr,
}
use universal_symbols.Elf.Layout.{
  elf32_ehdr, elf64_ehdr, elf32_phdr, elf64_phdr, elf32_shdr, elf64_shdr, elf32_sym, elf64_sym,
  elf32_ehdr_size, elf64_ehdr_size, elf32_phdr_size, elf64_phdr_size, elf32_shdr_size,
  elf64_shdr_size, elf32_sym_size, elf64_sym_size,
}

-- A parsing step: the reader behind it, and what it read.
abbrev pub Parser : Type 0 → Type 0
Parser A = Buffer → Option (Buffer × A)

-- `T x{}; reader.Read(x);`: where the read answers false the zeros stay.
unfoldable pub read_struct : {A : Type 0} → ℕ → (List ℕ → A) → Parser A
read_struct width layout r = read width r >>= λ got.
    some (got.0, layout (elim got.1 [ none ↦ replicate width 0 | some bytes ↦ bytes ]))

unfoldable pub parse_ehdr : Bool → Parser Ehdr
unfolding read_struct
parse_ehdr is_64_bit =
    if is_64_bit
    then read_struct elf64_ehdr_size elf64_ehdr
    else read_struct elf32_ehdr_size elf32_ehdr

unfoldable pub parse_phdr : Bool → Parser Phdr
unfolding read_struct
parse_phdr is_64_bit =
    if is_64_bit
    then read_struct elf64_phdr_size elf64_phdr
    else read_struct elf32_phdr_size elf32_phdr

unfoldable pub parse_shdr : Bool → Parser Shdr
unfolding read_struct
parse_shdr is_64_bit =
    if is_64_bit
    then read_struct elf64_shdr_size elf64_shdr
    else read_struct elf32_shdr_size elf32_shdr

-- `Elf_SymEx::Parse`, which nothing calls.
unfoldable pub parse_sym : Bool → Parser Sym
unfolding read_struct
parse_sym is_64_bit =
    if is_64_bit then read_struct elf64_sym_size elf64_sym else read_struct elf32_sym_size elf32_sym

-- `Elf_ShdrEx` and `Elf_SymEx`: the structure with a name.
pub record Section : Type 0 where
  pub header : Shdr
  pub name : Text

pub record Symbol : Type 0 where
  pub sym : Sym
  pub name : Text

unfoldable pub is_function_symbol : Symbol → Bool
unfolding get_type
is_function_symbol s = get_type s.sym == stt_func

unfoldable pub is_type_symbol : Symbol → Bool
unfolding get_type
is_type_symbol s = not (get_type s.sym == stt_func)

pub record ElfEx : Type 0 where
  pub is_64_bit : Bool
  pub elf_header : Ehdr
  pub program_header : Phdr
  pub sections : List Section
  pub symbols : List Symbol

-- `s_elf` before the first call.
unfoldable pub new : ElfEx
unfolding zero_ehdr zero_phdr
new = record {
  is_64_bit = false;
  elf_header = zero_ehdr;
  program_header = zero_phdr;
  sections = [];
  symbols = [];
}

abbrev pub seek : ℕ → Buffer → Buffer
seek at r = record r { position = at }

unfoldable pub read_file_class : ElfEx → Parser ElfEx
unfolding reset
read_file_class e r = read 1 (seek 4 r) >>= λ got.
    let file_class : ℕ = elim got.1 [ none ↦ 0 | some bytes ↦ le_value bytes ] in
    some (reset got.0, record e { is_64_bit = file_class == elfclass64 })

-- `Convert` copies every field but `e_ident`.
unfoldable pub read_elf_program_header : ElfEx → Parser ElfEx
unfolding parse_ehdr parse_phdr
read_elf_program_header e r = do
  (r1, h) ← parse_ehdr e.is_64_bit r
  (r2, p) ← parse_phdr e.is_64_bit (seek h.e_phoff r1)
  some (
    r2,
    record e { elf_header = record h { e_ident = e.elf_header.e_ident }; program_header = p },
  )

-- The same step `count` times.
unfoldable pub times : {A : Type 0} → ℕ → Parser A → Parser (List A)
times zero step r = some (r, [])
times (suc count) step r = do (r1, x) ← step r; (r2, xs) ← times count step r1; some (r2, x ∷ xs)

abbrev pub unnamed_section : Shdr → Section
unnamed_section h = record { header = h; name = [] }

abbrev pub unnamed_symbol : Sym → Symbol
unnamed_symbol s = record { sym = s; name = [] }

unfoldable pub read_section_headers : ElfEx → Parser ElfEx
unfolding times parse_shdr
read_section_headers e r = do
  (r1, hs) ← times e.elf_header.e_shnum (parse_shdr e.is_64_bit) (seek e.elf_header.e_shoff r)
  some (r1, record e { sections = map unnamed_section hs })

-- The position is put back.
unfoldable pub get_section_name : ElfEx → Shdr → Parser Text
get_section_name e h r = if e.elf_header.e_shstrndx == 0 then some (r, []) else (do
  strings ← get_elem? e.sections e.elf_header.e_shstrndx
  (r1, name) ← read_string (seek ((strings.header.sh_offset + h.sh_name) % size_mod) r)
  some (seek r.position r1, name))

-- Only names change while the loop runs, and `get_section_name` reads none.
unfoldable pub name_sections : ElfEx → List Section → Parser (List Section)
unfolding get_section_name
name_sections e [] r = some (r, [])
name_sections e (s ∷ ss) r = do
  (r1, name) ← get_section_name e s.header r
  (r2, named) ← name_sections e ss r1
  some (r2, record s { name = name } ∷ named)

-- Offset and size of the last section of that name, as the loop leaves them.
unfoldable pub find_symtab : ℕ × ℕ → List Section → ℕ × ℕ
find_symtab at [] = at
find_symtab at (s ∷ ss) =
    find_symtab
      (if text_eq s.name (codes ".symtab") then (s.header.sh_offset, s.header.sh_size) else at) ss

unfoldable pub find_strtab : List Section → Option Section
find_strtab [] = none
find_strtab (s ∷ ss) = if text_eq s.name (codes ".strtab") then some s else find_strtab ss

unfoldable pub name_symbols : Shdr → List Symbol → Parser (List Symbol)
name_symbols strings [] r = some (r, [])
name_symbols strings (s ∷ ss) r = do
  (r1, name) ←
      (if s.sym.st_name == 0
        then some (r, s.name)
        else read_string (seek ((strings.sh_offset + s.sym.st_name) % size_mod) r))
  (r2, named) ← name_symbols strings ss r1
  some (r2, record s { name = name } ∷ named)

-- The loop reads `Elf64_Sym` in files of either class; the count goes by the class.
unfoldable pub read_symbol_table : Bool → ℕ → ℕ → Parser (List Symbol)
unfolding times read_struct
read_symbol_table is_64_bit offset size r =
    let type_size = if is_64_bit then elf64_sym_size else elf32_sym_size in
    times (size / type_size) (read_struct elf64_sym_size elf64_sym) (seek offset r) >>= λ got.
    some (got.0, map unnamed_symbol got.1)

-- What follows the naming of the sections.
unfoldable pub read_named_symbols : ElfEx → List Section → Parser ElfEx
unfolding find_symtab find_strtab name_symbols read_symbol_table
read_named_symbols e sections r =
    let table = find_symtab (0, 0) sections in
    if table.1 == 0 then some (r, record e { sections = sections; symbols = [] }) else (do
      (r1, symbols) ← read_symbol_table e.is_64_bit table.0 table.1 r
      (r2, named) ← (elim (find_strtab sections) [
        | none ↦ some (r1, symbols)
        | some s ↦ name_symbols s.header symbols r1
      ])
      some (r2, record e { sections = sections; symbols = named }))

unfoldable pub read_symbols : ElfEx → Parser ElfEx
unfolding name_sections read_named_symbols
read_symbols e r = do
  (r1, sections) ← name_sections e e.sections r
  read_named_symbols e sections r1

unfoldable pub parse : File → ElfEx → Option (ElfEx × Bool)
unfolding read_file_class read_elf_program_header read_section_headers read_symbols
parse f e =
    let (r, loaded) = load_from_file f Buffer.new in
    if loaded
    then (do
      (r1, e1) ← read_file_class e r
      (r2, e2) ← read_elf_program_header e1 r1
      (r3, e3) ← read_section_headers e2 r2
      (r4, e4) ← read_symbols e3 r3
      some (e4, true))
    else some (e, false)

-- `CreateUsymFromFile` over the static `s_elf`. The loop over the symbols only logs their names.
unfoldable pub create_usym_from_file : File → ElfEx → Option (ElfEx × Option Usym)
unfolding parse
create_usym_from_file f e = parse f e >>= λ got. some (got.0, if got.1 then some Usym.new else none)
