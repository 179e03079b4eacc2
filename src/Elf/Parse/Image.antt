-- ===== src/Elf/Parse/Image.antt =====
-- What the parser makes of a 64-bit file.
use universal_symbols.Prelude.{
  ℕ, zero, suc, ◌/◌, ◌<◌, ◌≡◌, refl, sym, ap, ◌∙◌, true, false, List, [], ◌∷◌, map, some, ◌>>=◌,
  ◌==◌, length, arith, get_elem?, length-map,
}
use universal_symbols.ReCore.Memory.{le_value}
use universal_symbols.ReCore.Buffer
use universal_symbols.ReCore.Buffer.{Buffer, reset}
use universal_symbols.ReCore.Reader.{File, load_from_file}
use universal_symbols.ReCore.Reader.Bounds.{IsLoaded}
use universal_symbols.ReCore.Reader.Stands.{read-Stands}
use universal_symbols.Elf.Layout.Segments.{phdr_bytes}
use universal_symbols.Elf.Layout.Sections.{shdr_bytes, IsShdr}
use universal_symbols.Elf.Layout.Symbols.{sym64_bytes, IsSym64}
use universal_symbols.Elf.Layout.{elf64_sym, elf64_sym_size}
use universal_symbols.Elf.Parse.{
  ElfEx, Section, seek, unnamed_section, unnamed_symbol, read_file_class, read_elf_program_header,
  read_section_headers, name_sections, find_symtab, find_strtab, read_symbol_table,
  read_named_symbols, read_symbols, parse, read_struct, times, parse_shdr,
}
use universal_symbols.Elf.Parse.Structures.{
  behind, parse_ehdr-Stands, parse_phdr-Stands, parse_shdr-Stands, read_sym64-Stands,
}
use universal_symbols.Elf.Parse.Tables.{table, times-table}
use universal_symbols.Elf.Parse.Names.{
  name_sections_lem, name_symbols_lem, find_symtab_last, find_strtab_first,
}
use universal_symbols.Elf.Parse.Described.{header_of, sym_of, IsImage}

map_fuse :
    {A B C : Type 0} (f : A → B) (g : B → C) (xs : List A)
    → map g (map f xs) ≡ map (λ x. g (f x)) xs
map_fuse f g [] = refl
map_fuse f g (x ∷ xs) = ap (λ l. g (f x) ∷ l) (map_fuse f g xs)

get_elem?-map :
    {A B : Type 0} (f : A → B) (xs : List A) (n : ℕ) (x : A)
    → get_elem? xs n ≡ some x
    → get_elem? (map f xs) n ≡ some (f x)
get_elem?-map f [] n x found = cc
get_elem?-map f (y ∷ xs) zero x found = ap (λ o. o >>= λ a. some (f a)) found
get_elem?-map f (y ∷ xs) (suc n) x found = get_elem?-map f xs n x found

module _ (bytes : List ℕ) (x : ElfEx) (strings symtab strtab : Section)
    (image : IsImage bytes x strings symtab strtab) where
  read_file_class_lem :
      (e : ElfEx) (r : Buffer)
      → IsLoaded r bytes
      → read_file_class e r ≡ some (reset r, record e { is_64_bit = true })
  unfolding read_file_class reset le_value
  read_file_class_lem e r h =
      let got =
        read-Stands (seek 4 r) bytes (2 ∷ []) (record { memory = h.memory; size = h.size })
          image.small image.file_class in
      rw got refl

  read_elf_program_header_lem :
      (e : ElfEx) (r : Buffer)
      → IsLoaded r bytes
      → e.is_64_bit ≡ true
      → (r1 : Buffer) × (IsLoaded r1 bytes)
        × (read_elf_program_header e (reset r)
            ≡ some (
              r1,
              record e {
                elf_header = record x.elf_header { e_ident = e.elf_header.e_ident };
                program_header = x.program_header;
              },
            ))
  unfolding read_elf_program_header reset
  read_elf_program_header_lem e r h class =
      let ok : (n : ℕ) → IsLoaded (seek n r) bytes =
        λ n. record { memory = h.memory; size = h.size } in
      let got =
        parse_ehdr-Stands (reset r) bytes (ok 0) image.small true x.elf_header
          image.file_header_fits image.file_header in
      let at = x.elf_header.e_phoff in
      let got1 =
        parse_phdr-Stands (seek at r) bytes (ok at) image.small true x.program_header
          image.segment_fits image.segment in
      (
        behind (length (phdr_bytes true x.program_header)) (seek at r),
        ok _,
        rw (class, got, got1) refl,
      )

  read_section_headers_lem :
      (e : ElfEx) (r : Buffer)
      → IsLoaded r bytes
      → e.is_64_bit ≡ true
      → e.elf_header.e_shnum ≡ x.elf_header.e_shnum
      → e.elf_header.e_shoff ≡ x.elf_header.e_shoff
      → (r1 : Buffer) × (IsLoaded r1 bytes)
        × (read_section_headers e r
            ≡ some (r1, record e { sections = map (λ s. unnamed_section s.header) x.sections }))
  unfolding read_section_headers
  read_section_headers_lem e r h class count place =
      let hs = map header_of x.sections in
      let ok : (n : ℕ) → IsLoaded (seek n r) bytes =
        λ n. record { memory = h.memory; size = h.size } in
      let at = x.elf_header.e_shoff in
      let got =
        times-table bytes _ (shdr_bytes true) (IsShdr true)
          (λ r h. parse_shdr-Stands r bytes h image.small true) hs (seek at r) (ok at)
          image.sections_fit image.section_table in
      let as_many : e.elf_header.e_shnum ≡ length hs =
        count ∙ sym image.section_count ∙ sym (length-map header_of x.sections) in
      let r1 = behind (length (table (shdr_bytes true) hs)) (seek at r) in
      let whole : times e.elf_header.e_shnum (parse_shdr e.is_64_bit) (seek e.elf_header.e_shoff r)
          ≡ some (r1, hs) =
        rw (class, as_many, place) got in
      let rewritten = map_fuse header_of unnamed_section x.sections in
      (r1, ok _, rw whole (λ i. some (r1, record e { sections = rewritten i })))

  read_symbol_table_lem :
      (r : Buffer)
      → IsLoaded r bytes
      → (r1 : Buffer) × (IsLoaded r1 bytes)
        × (read_symbol_table true symtab.header.sh_offset symtab.header.sh_size r
            ≡ some (r1, map (λ s. unnamed_symbol s.sym) x.symbols))
  unfolding read_symbol_table
  read_symbol_table_lem r h =
      let ss = map sym_of x.symbols in
      let at = symtab.header.sh_offset in
      let ok : (n : ℕ) → IsLoaded (seek n r) bytes =
        λ n. record { memory = h.memory; size = h.size } in
      let as_many : symtab.header.sh_size / 24 ≡ length ss =
        omega (arith, image.symbol_count, length-map sym_of x.symbols) in
      let got =
        times-table bytes (read_struct elf64_sym_size elf64_sym) sym64_bytes IsSym64
          (λ r h. read_sym64-Stands r bytes h image.small) ss (seek at r) (ok at) image.symbols_fit
          image.symbol_table in
      let r1 = behind (length (table sym64_bytes ss)) (seek at r) in
      let rewritten = map_fuse sym_of unnamed_symbol x.symbols in
      (r1, ok _, rw (as_many, got) (λ i. some (r1, rewritten i)))

  read_named_symbols_lem :
      (e : ElfEx) (r : Buffer)
      → IsLoaded r bytes
      → e.is_64_bit ≡ true
      → (r1 : Buffer) × (read_named_symbols e x.sections r
          ≡ some (r1, record e { sections = x.sections; symbols = x.symbols }))
  unfolding read_named_symbols
  read_named_symbols_lem e r h class =
      let tab = image.symtab_placed in
      let str = image.strtab_placed in
      let at_table : find_symtab (0, 0) x.sections
          ≡ (symtab.header.sh_offset, symtab.header.sh_size) =
        ap (find_symtab (0, 0)) tab.split
        ∙ find_symtab_last tab.before (0, 0) symtab tab.behind tab.named tab.none_behind in
      let at_names : find_strtab x.sections ≡ some strtab =
        ap find_strtab str.split
        ∙ find_strtab_first str.before strtab str.behind str.none_before str.named in
      let some_symbols : (symtab.header.sh_size == 0) ≡ false =
        ground (arith, image.symbol_count, image.has_symbols) in
      let (r1, h1, got) = read_symbol_table_lem r h in
      let (r2, named) = name_symbols_lem strtab.header bytes x.symbols r1 h1 image.symbols_named in
      (r2, rw (at_table, at_names, some_symbols, class, got, named) refl)

  read_symbols_lem :
      (e : ElfEx) (r : Buffer)
      → IsLoaded r bytes
      → e.is_64_bit ≡ true
      → e.elf_header.e_shstrndx ≡ x.elf_header.e_shstrndx
      → e.sections ≡ map (λ s. unnamed_section s.header) x.sections
      → (r1 : Buffer) × (read_symbols e r
          ≡ some (r1, record e { sections = x.sections; symbols = x.symbols }))
  unfolding read_symbols
  read_symbols_lem e r h class index unnamed =
      let found : get_elem? e.sections e.elf_header.e_shstrndx
          ≡ some (unnamed_section strings.header) =
        rw (unnamed, index)
          (get_elem?-map (λ s. unnamed_section s.header) x.sections _ strings
            image.strings_index) in
      let some_table : 0 < e.elf_header.e_shstrndx = rw index image.has_strings in
      let named : name_sections e e.sections r ≡ some (r, x.sections) =
        ap (λ ss. name_sections e ss r) unnamed
        ∙ name_sections_lem e bytes (unnamed_section strings.header) some_table found x.sections r h
            image.sections_named in
      let (r1, rest) = read_named_symbols_lem e r h class in (r1, rw (named, rest) refl)

-- A 64-bit file with a file header, a program header, a section table and a symbol table, each at
-- the place that the headers name, whose sections have their names in the string table of the
-- sections, and whose symbols stand in its only section `.symtab` and have their names in its only
-- section `.strtab`: the parser returns true
-- with exactly these headers, sections and symbols, each with its name. Only `e_ident` stays what it
-- was before the call.
pub parse-IsImage :
    (bytes : List ℕ) (x : ElfEx) (strings symtab strtab : Section)
    → IsImage bytes x strings symtab strtab
    → (e : ElfEx)
    → parse (File.readable bytes) e
      ≡ some (
        record {
          is_64_bit = true;
          elf_header = record x.elf_header { e_ident = e.elf_header.e_ident };
          program_header = x.program_header;
          sections = x.sections;
          symbols = x.symbols;
        },
        true,
      )
unfolding parse load_from_file
parse-IsImage bytes x strings symtab strtab image e =
    let r = record Buffer.new { size = length bytes; memory = some bytes } in
    let h : IsLoaded r bytes = record { memory = refl; size = refl } in
    let e1 = record e { is_64_bit = true } in
    let one = read_file_class_lem bytes x strings symtab strtab image e r h in
    let (r2, h2, two) =
      read_elf_program_header_lem bytes x strings symtab strtab image e1 r h refl in
    let e2 = record e1 {
      elf_header = record x.elf_header { e_ident = e.elf_header.e_ident };
      program_header = x.program_header;
    } in
    let (r3, h3, three) =
      read_section_headers_lem bytes x strings symtab strtab image e2 r2 h2 refl refl refl in
    let e3 = record e2 { sections = map (λ s. unnamed_section s.header) x.sections } in
    let (r4, four) = read_symbols_lem bytes x strings symtab strtab image e3 r3 h3 refl refl refl in
    rw (one, two, three, four) refl
