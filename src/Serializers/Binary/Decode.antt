-- ===== src/Serializers/Binary/Decode.antt =====
-- A reader of the binary format, written against the format alone: the serializers of the source
-- have no counterpart that reads.
use universal_symbols.Prelude.{
  ℕ, zero, suc, true, false, List, [], ◌∷◌, Option, none, some, ◌>>=◌, leb, ◌==◌, if◌then◌else◌,
  length, take, drop, Text,
}
use universal_symbols.ReCore.Memory.{le_value}
use universal_symbols.Usym.{
  OriginalFormat, Architecture, TypeKind, CallingConvention, Header, FieldSymbol, TypeSymbol,
  FunctionSymbol, Usym,
}

-- A value and the bytes behind it.
abbrev pub Reads : Type 0 → Type 0
Reads A = List ℕ → Option (A × List ℕ)

unfoldable pub read_int : ℕ → Reads ℕ
read_int w bytes =
    if leb w (length bytes) then some (le_value (take w bytes), drop w bytes) else none

unfoldable pub read_c_string : Reads Text
read_c_string [] = none
read_c_string (c ∷ bytes) =
    let rest = read_c_string bytes in
    if c == 0 then some ([], bytes) else rest >>= λ r. some (c ∷ r.0, r.1)

abbrev pub format_of : ℕ → OriginalFormat
format_of c =
    if c == 0
    then OriginalFormat.pdb
    else if c == 1
    then OriginalFormat.dwarf
    else OriginalFormat.unknown

abbrev pub architecture_of : ℕ → Architecture
architecture_of c =
    if c == 0
    then Architecture.x86
    else if c == 1
    then Architecture.x86_64
    else if c == 2
    then Architecture.arm32
    else if c == 3
    then Architecture.arm64
    else Architecture.unknown

abbrev pub type_of : ℕ → TypeKind
type_of c =
    if c == 0
    then TypeKind.base
    else if c == 1
    then TypeKind.struct
    else if c == 2
    then TypeKind.class
    else if c == 3
    then TypeKind.union
    else if c == 4
    then TypeKind.interface
    else if c == 5
    then TypeKind.enum
    else if c == 6
    then TypeKind.pointer
    else if c == 7
    then TypeKind.typedef
    else if c == 8
    then TypeKind.array
    else TypeKind.unknown

abbrev pub convention_of : ℕ → CallingConvention
convention_of c =
    if c == 0
    then CallingConvention.near_c
    else if c == 1
    then CallingConvention.near_fast
    else if c == 2
    then CallingConvention.near_std
    else if c == 3
    then CallingConvention.near_sys
    else if c == 4
    then CallingConvention.thiscall
    else if c == 5
    then CallingConvention.clr_call
    else CallingConvention.unknown

unfoldable pub read_header : Reads Header
read_header b0 = do
  (magic, b1) ← read_int 4 b0
  (format, b2) ← read_int 1 b1
  (architecture, b3) ← read_int 1 b2
  some (
    record {
      magic = magic;
      original_format = format_of format;
      architecture = architecture_of architecture;
    },
    b3,
  )

-- `count` items in a row.
unfoldable pub read_many : {A : Type 0} → Reads A → ℕ → Reads (List A)
read_many item zero b0 = some ([], b0)
read_many item (suc count) b0 = do
  (x, b1) ← item b0
  (xs, b2) ← read_many item count b1
  some (x ∷ xs, b2)

unfoldable pub read_field : Reads FieldSymbol
read_field b0 = do
  (id, b1) ← read_int 4 b0
  (name, b2) ← read_c_string b1
  (type, b3) ← read_int 4 b2
  (offset, b4) ← read_int 8 b3
  (anonymous, b5) ← read_int 1 b4
  (union, b6) ← read_int 4 b5
  some (
    record {
      id = id;
      name = name;
      underlying_type_id = type;
      offset = offset;
      is_anonymous_union = if anonymous == 0 then false else true;
      union_id = union;
    },
    b6,
  )

-- The key of a symbol is not stored: it is the symbol's id.
unfoldable pub read_type : Reads (ℕ × TypeSymbol)
read_type b0 = do
  (id, b1) ← read_int 4 b0
  (name, b2) ← read_c_string b1
  (type, b3) ← read_int 1 b2
  (size, b4) ← read_int 8 b3
  (count, b5) ← read_int 8 b4
  (stored, b6) ← read_int 8 b5
  (fields, b7) ← read_many read_field stored b6
  (source, b8) ← read_int 4 b7
  some (
    (
      id,
      record {
        id = id;
        name = name;
        type = type_of type;
        length = size;
        field_count = count;
        fields = fields;
        typedef_source = source;
      },
    ),
    b8,
  )

unfoldable pub read_function : Reads (ℕ × FunctionSymbol)
read_function b0 = do
  (id, b1) ← read_int 4 b0
  (name, b2) ← read_c_string b1
  (result, b3) ← read_int 4 b2
  (count, b4) ← read_int 4 b3
  (stored, b5) ← read_int 8 b4
  (ids, b6) ← read_many (read_int 4) stored b5
  (convention, b7) ← read_int 1 b6
  (address, b8) ← read_int 8 b7
  some (
    (
      id,
      record {
        id = id;
        name = name;
        return_type_id = result;
        argument_count = count;
        argument_type_ids = ids;
        calling_convention = convention_of convention;
        virtual_address = address;
      },
    ),
    b8,
  )

unfoldable pub read_usym : Reads Usym
read_usym b0 = do
  (header, b1) ← read_header b0
  (types, b2) ← read_int 8 b1
  (type_symbols, b3) ← read_many read_type types b2
  (functions, b4) ← read_int 8 b3
  (function_symbols, b5) ← read_many read_function functions b4
  some (
    record { header = header; type_symbols = type_symbols; function_symbols = function_symbols },
    b5,
  )
