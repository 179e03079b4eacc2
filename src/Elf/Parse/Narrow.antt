-- ===== src/Elf/Parse/Narrow.antt =====
-- What goes wrong: the symbols of 32-bit files, and a section index that is out of range.
use universal_symbols.Prelude.{
  ℕ, zero, suc, ◌+◌, ◌*◌, ◌/◌, ◌%◌, ◌^◌, ◌<◌, ◌≤◌, ◌≡◌, refl, ap, ◌∙◌, false, List, [], ◌∷◌, ◌++◌,
  map, Option, none, some, ◌>>=◌, ◌==◌, length, arith, get_elem?,
}
use universal_symbols.ReCore.Memory.{size_mod, le_value, le_bytes, le_value-le_bytes}
use universal_symbols.ReCore.Buffer.{Buffer}
use universal_symbols.ReCore.Reader.Bounds.{IsLoaded}
use universal_symbols.ReCore.Reader.Stands.{Stands}
use universal_symbols.Elf.{Sym}
use universal_symbols.Elf.Layout.Symbols.{sym32_bytes, IsSym32}
use universal_symbols.Elf.Layout.{elf64_sym, elf64_sym_size, uint}
use universal_symbols.Elf.Parse.{
  ElfEx, Section, seek, unnamed_symbol, get_section_name, name_sections, read_symbol_table,
  read_symbols, read_struct, times,
}
use universal_symbols.Elf.Parse.Structures.{behind, read_struct-Stands}

-- The 24 bytes at an `Elf32_Sym` as an `Elf64_Sym`: its value gives type, visibility and section, its
-- size and what follows it give the value, and the next symbol the size.
unfoldable pub misread : Sym → Sym → Sym
misread s t = record {
  st_name = s.st_name;
  st_info = s.st_value % 256;
  st_other = s.st_value / 256 % 256;
  st_shndx = s.st_value / 65536;
  st_value = s.st_size + 2 ^ 32 * (s.st_info + 256 * s.st_other + 65536 * s.st_shndx);
  st_size = t.st_name + 2 ^ 32 * t.st_value;
}

abbrev pub window : Sym → Sym → List ℕ
window s t = sym32_bytes s ++ (le_bytes 4 t.st_name ++ le_bytes 4 t.st_value)

elf64_sym-window : (s t : Sym) → IsSym32 s → IsSym32 t → elf64_sym (window s t) ≡ misread s t
unfolding elf64_sym misread sym32_bytes uint le_bytes le_value
elf64_sym-window s t ok ok1 =
    let name = le_value-le_bytes 4 s.st_name ok.st_name in
    let size = le_value-le_bytes 4 s.st_size ok.st_size in
    let info = le_value-le_bytes 1 s.st_info ok.st_info in
    let other = le_value-le_bytes 1 s.st_other ok.st_other in
    let shndx = le_value-le_bytes 2 s.st_shndx ok.st_shndx in
    let name1 = le_value-le_bytes 4 t.st_name ok1.st_name in
    let value1 = le_value-le_bytes 4 t.st_value ok1.st_value in
    let a : uint 1 4 (window s t) ≡ s.st_value % 256 = omega arith in
    let b : uint 1 5 (window s t) ≡ s.st_value / 256 % 256 = omega arith in
    let c : uint 2 6 (window s t) ≡ s.st_value / 65536 = omega (arith, ok.st_value) in
    let d : uint 8 8 (window s t)
        ≡ s.st_size + 2 ^ 32 * (s.st_info + 256 * s.st_other + 65536 * s.st_shndx) =
      omega (arith, size, info, other, shndx) in
    let e : uint 8 16 (window s t) ≡ t.st_name + 2 ^ 32 * t.st_value =
      omega (arith, name1, value1) in
    λ i. record {
      st_name = name i;
      st_info = a i;
      st_other = b i;
      st_shndx = c i;
      st_value = d i;
      st_size = e i;
    }

length-window : (s t : Sym) → length (window s t) ≡ 24
unfolding sym32_bytes le_bytes
length-window s t = refl

bind_assoc :
    {A B C : Type 0} (m : Option A) (f : A → Option B) (g : B → Option C)
    → ((m >>= f) >>= g) ≡ (m >>= λ x. f x >>= g)
bind_assoc none f g = refl
bind_assoc (some x) f g = refl

-- In a 32-bit file, of less bytes than `size_t` counts and with symbols that fit their fields,
-- the loop over the symbols takes the first symbol of the table and the first half of the second
-- for one of the wider layout, with the mixed fields of `misread`, and goes on 24 bytes further
-- for the rest of as many symbols as there are 16 bytes.
pub read_symbol_table_narrow :
    (r : Buffer) (bytes : List ℕ) (s t : Sym) (at count : ℕ)
    → IsLoaded r bytes
    → length bytes < size_mod
    → Stands bytes at (window s t)
    → IsSym32 s
    → IsSym32 t
    → read_symbol_table false at (16 * (count + 1)) r ≡ (
        times count (read_struct elf64_sym_size elf64_sym) (behind 24 (seek at r)) >>= λ got.
        some (got.0, unnamed_symbol (misread s t) ∷ map unnamed_symbol got.1))
unfolding read_symbol_table times
read_symbol_table_narrow r bytes s t at count h small stands ok ok1 =
    let as_many : 16 * (count + 1) / 16 ≡ suc count = omega arith in
    let got =
      read_struct-Stands (seek at r) bytes (record { memory = h.memory; size = h.size }) small 24
        elf64_sym (window s t) (misread s t) (length-window s t) (elf64_sym-window s t ok ok1)
        stands in
    rw (as_many, got, length-window s t)
      (bind_assoc (times count (read_struct elf64_sym_size elf64_sym) (behind 24 (seek at r))) _ _)

get_elem?-none : {A : Type 0} (xs : List A) (n : ℕ) → length xs ≤ n → get_elem? xs n ≡ none
get_elem?-none [] n out = refl
get_elem?-none (x ∷ xs) zero out = absurd (omega arith)
get_elem?-none (x ∷ xs) (suc n) out = get_elem?-none xs n (omega arith)

-- The index of the section with the section names is taken from the file unchecked: where there
-- are sections and it is neither 0 nor below their number, reading the symbols reads outside the
-- vector.
pub read_symbols_faults :
    (e : ElfEx) (s : Section) (ss : List Section) (r : Buffer)
    → e.sections ≡ s ∷ ss
    → 0 < e.elf_header.e_shstrndx
    → length e.sections ≤ e.elf_header.e_shstrndx
    → read_symbols e r ≡ none
unfolding read_symbols name_sections get_section_name
read_symbols_faults e s ss r some_sections has_index out =
    let has : (e.elf_header.e_shstrndx == 0) ≡ false = ground arith in
    let found : get_elem? e.sections e.elf_header.e_shstrndx ≡ none =
      get_elem?-none e.sections _ out in
    let stuck : name_sections e e.sections r ≡ none =
      ap (λ l. name_sections e l r) some_sections ∙ rw (has, found) refl in
    rw stuck refl
