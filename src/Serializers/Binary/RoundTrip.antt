-- ===== src/Serializers/Binary/RoundTrip.antt =====
-- The binary format loses nothing: what it stores can be read back.
use mathlib.Core.Path.{subst}
use universal_symbols.Prelude.{
  ℕ, ◌^◌, ◌<◌, ◌≡◌, refl, Bool, true, false, List, [], ◌∷◌, ◌++◌, map, some, arith, leb, ◌==◌,
  if◌then◌else◌, length, Text, All, take-append, drop-append, length-append, append_assoc,
}
use universal_symbols.Prelude.Map.{Map}
use universal_symbols.ReCore.Memory.{le_bytes, le_value, length-le_bytes, le_value-le_bytes}
use universal_symbols.ReCore.Writer.Steps.{c_string}
use universal_symbols.Usym.{
  OriginalFormat, Architecture, TypeKind, CallingConvention, Header, FieldSymbol, TypeSymbol,
  FunctionSymbol, Usym,
}
use universal_symbols.Serializers.Codes.{
  format_code, architecture_code, type_code, convention_code, bool_code,
}
use universal_symbols.Serializers.Binary.Format.{
  header_bytes, fields_bytes, types_bytes, ids_bytes, functions_bytes, usym_bytes,
}
use universal_symbols.Serializers.Binary.Decode.{
  read_int, read_c_string, read_many, read_header, read_field, read_type, read_function, read_usym,
  format_of, architecture_of, type_of, convention_of,
}

read_int_at :
    (bytes rest : List ℕ) (v : ℕ)
    → le_value bytes ≡ v
    → read_int (length bytes) (bytes ++ rest) ≡ some (v, rest)
unfolding read_int
read_int_at bytes rest v e =
    let fits : leb (length bytes) (length (bytes ++ rest)) ≡ true =
      ground (arith, length-append bytes rest) in
    rw (fits, take-append, drop-append, e)

read_int-le_bytes :
    (w v : ℕ) → v < 256 ^ w → (rest : List ℕ) → read_int w (le_bytes w v ++ rest) ≡ some (v, rest)
read_int-le_bytes w v h rest =
    subst (λ (n : ℕ). read_int n (le_bytes w v ++ rest) ≡ some (v, rest)) (length-le_bytes w v)
      (read_int_at (le_bytes w v) rest v (le_value-le_bytes w v h))

-- A name without a zero byte.
abbrev pub IsName : Text → Type 0
IsName s = All (λ c. 0 < c) s

read_c_string_lem :
    (s : Text) → IsName s → (rest : List ℕ) → read_c_string (c_string s ++ rest) ≡ some (s, rest)
unfolding read_c_string c_string
read_c_string_lem [] h rest = refl
read_c_string_lem (c ∷ s) h rest = ground (arith, read_c_string_lem s h.1 rest)

abbrev pub IsU8 : ℕ → Type 0
IsU8 v = v < 256 ^ 1

abbrev pub IsU32 : ℕ → Type 0
IsU32 v = v < 256 ^ 4

abbrev pub IsU64 : ℕ → Type 0
IsU64 v = v < 256 ^ 8

-- The ranges of the C++ types, and names that end at their first zero.
pub record IsStorableField (f : FieldSymbol) : Type 0 where
  pub id : IsU32 f.id
  pub name : IsName f.name
  pub underlying_type_id : IsU32 f.underlying_type_id
  pub offset : IsU64 f.offset
  pub union_id : IsU32 f.union_id

pub record IsStorableType (e : ℕ × TypeSymbol) : Type 0 where
  pub key : IsU32 e.0
  pub id : IsU32 e.1.id
  pub name : IsName e.1.name
  pub length_ : IsU64 e.1.length
  pub field_count : IsU64 e.1.field_count
  pub stored : IsU64 (length e.1.fields)
  pub fields : All IsStorableField e.1.fields
  pub typedef_source : IsU32 e.1.typedef_source

pub record IsStorableFunction (e : ℕ × FunctionSymbol) : Type 0 where
  pub key : IsU32 e.0
  pub id : IsU32 e.1.id
  pub name : IsName e.1.name
  pub return_type_id : IsU32 e.1.return_type_id
  pub argument_count : IsU32 e.1.argument_count
  pub stored : IsU64 (length e.1.argument_type_ids)
  pub argument_type_ids : All IsU32 e.1.argument_type_ids
  pub virtual_address : IsU64 e.1.virtual_address

pub record IsStorable (u : Usym) : Type 0 where
  pub magic : IsU32 u.header.magic
  pub types : IsU64 (length u.type_symbols)
  pub type_symbols : All IsStorableType u.type_symbols
  pub functions : IsU64 (length u.function_symbols)
  pub function_symbols : All IsStorableFunction u.function_symbols

format_of-format_code : (f : OriginalFormat) → format_of (format_code f) ≡ f
format_of-format_code f = ground arith

architecture_of-architecture_code : (a : Architecture) → architecture_of (architecture_code a) ≡ a
architecture_of-architecture_code a = ground arith

type_of-type_code : (t : TypeKind) → type_of (type_code t) ≡ t
type_of-type_code t = ground arith

convention_of-convention_code : (c : CallingConvention) → convention_of (convention_code c) ≡ c
convention_of-convention_code c = ground arith

format_code-IsU8 : (f : OriginalFormat) → IsU8 (format_code f)
format_code-IsU8 f = ground arith

architecture_code-IsU8 : (a : Architecture) → IsU8 (architecture_code a)
architecture_code-IsU8 a = ground arith

type_code-IsU8 : (t : TypeKind) → IsU8 (type_code t)
type_code-IsU8 t = ground arith

convention_code-IsU8 : (c : CallingConvention) → IsU8 (convention_code c)
convention_code-IsU8 c = ground arith

bool_code-IsU8 : (b : Bool) → IsU8 (bool_code b)
bool_code-IsU8 b = ground arith

bool_of-bool_code : (b : Bool) → (if bool_code b == 0 then false else true) ≡ b
bool_of-bool_code b = ground arith

read_header_lem :
    (h : Header)
    → IsU32 h.magic
    → (rest : List ℕ) → read_header (header_bytes h ++ rest) ≡ some (h, rest)
unfolding read_header header_bytes
read_header_lem h magic rest = simp (
  append_assoc,
  read_int-le_bytes 4 h.magic magic,
  read_int-le_bytes 1 (format_code h.original_format) (format_code-IsU8 h.original_format),
  read_int-le_bytes 1 (architecture_code h.architecture) (architecture_code-IsU8 h.architecture),
  format_of-format_code h.original_format,
  architecture_of-architecture_code h.architecture,
)

fields_lem :
    (fs : List FieldSymbol)
    → All IsStorableField fs
    → (rest : List ℕ) → read_many read_field (length fs) (fields_bytes fs ++ rest) ≡ some (fs, rest)
unfolding read_many read_field fields_bytes
fields_lem [] h rest = refl
fields_lem (f ∷ fs) (h, hs) rest = simp (
  append_assoc,
  read_int-le_bytes 4 f.id h.id,
  read_c_string_lem f.name h.name,
  read_int-le_bytes 4 f.underlying_type_id h.underlying_type_id,
  read_int-le_bytes 8 f.offset h.offset,
  read_int-le_bytes 1 (bool_code f.is_anonymous_union) (bool_code-IsU8 f.is_anonymous_union),
  bool_of-bool_code f.is_anonymous_union,
  read_int-le_bytes 4 f.union_id h.union_id,
  fields_lem fs hs,
)

types_lem :
    (m : Map TypeSymbol)
    → All IsStorableType m
    → (rest : List ℕ)
    → read_many read_type (length m) (types_bytes m ++ rest)
      ≡ some (map (λ e. (e.1.id, e.1)) m, rest)
unfolding read_many read_type types_bytes
types_lem [] h rest = refl
types_lem ((k, t) ∷ m) (h, hs) rest = simp (
  append_assoc,
  read_int-le_bytes 4 t.id h.id,
  read_c_string_lem t.name h.name,
  read_int-le_bytes 1 (type_code t.type) (type_code-IsU8 t.type),
  type_of-type_code t.type,
  read_int-le_bytes 8 t.length h.length_,
  read_int-le_bytes 8 t.field_count h.field_count,
  read_int-le_bytes 8 (length t.fields) h.stored,
  fields_lem t.fields h.fields,
  read_int-le_bytes 4 t.typedef_source h.typedef_source,
  types_lem m hs,
)

ids_lem :
    (ids : List ℕ)
    → All IsU32 ids
    → (rest : List ℕ)
    → read_many (read_int 4) (length ids) (ids_bytes ids ++ rest) ≡ some (ids, rest)
unfolding read_many ids_bytes
ids_lem [] h rest = refl
ids_lem (id ∷ ids) (h, hs) rest = simp (append_assoc, read_int-le_bytes 4 id h, ids_lem ids hs)

functions_lem :
    (m : Map FunctionSymbol)
    → All IsStorableFunction m
    → (rest : List ℕ)
    → read_many read_function (length m) (functions_bytes m ++ rest)
      ≡ some (map (λ e. (e.1.id, e.1)) m, rest)
unfolding read_many read_function functions_bytes
functions_lem [] h rest = refl
functions_lem ((k, f) ∷ m) (h, hs) rest = simp (
  append_assoc,
  read_int-le_bytes 4 f.id h.id,
  read_c_string_lem f.name h.name,
  read_int-le_bytes 4 f.return_type_id h.return_type_id,
  read_int-le_bytes 4 f.argument_count h.argument_count,
  read_int-le_bytes 8 (length f.argument_type_ids) h.stored,
  ids_lem f.argument_type_ids h.argument_type_ids,
  read_int-le_bytes 1 (convention_code f.calling_convention)
      (convention_code-IsU8 f.calling_convention),
  convention_of-convention_code f.calling_convention,
  read_int-le_bytes 8 f.virtual_address h.virtual_address,
  functions_lem m hs,
)

-- The same symbols in the same order, each under its own id, whatever its key was.
abbrev pub by_own_ids : Usym → Usym
by_own_ids u = record u {
  type_symbols = map (λ e. (e.1.id, e.1)) u.type_symbols;
  function_symbols = map (λ e. (e.1.id, e.1)) u.function_symbols;
}

-- The reader gives back the symbols under their ids, and leaves what follows them.
pub read_usym-usym_bytes :
    (u : Usym)
    → IsStorable u
    → (rest : List ℕ) → read_usym (usym_bytes u ++ rest) ≡ some (by_own_ids u, rest)
unfolding read_usym usym_bytes
read_usym-usym_bytes u h rest = simp (
  append_assoc,
  read_header_lem u.header h.magic,
  read_int-le_bytes 8 (length u.type_symbols) h.types,
  types_lem u.type_symbols h.type_symbols,
  read_int-le_bytes 8 (length u.function_symbols) h.functions,
  functions_lem u.function_symbols h.function_symbols,
)
