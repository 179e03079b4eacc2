-- ===== src/Serializers/Binary.antt =====
-- Components/UniversalSymbolsFormat/Serializers/BinarySerializer.h and BinarySerializer.cpp.
pub mod Format
pub mod Run
pub mod Refines
pub mod Decode
pub mod RoundTrip
use universal_symbols.Prelude.{
  ℕ, Bool, true, false, List, [], ◌∷◌, ◌++◌, Option, none, some, ◌>>=◌, Text, codes, length,
}
use universal_symbols.Prelude.Map.{Map}
use universal_symbols.ReCore.Buffer.{Buffer}
use universal_symbols.ReCore.Writer
use universal_symbols.ReCore.Writer.{Step, ◌>>◌, write, write_string, sized, Saved}
use universal_symbols.Usym.{FieldSymbol, TypeSymbol, FunctionSymbol, Usym}
use universal_symbols.Serializers.Codes.{
  format_code, architecture_code, type_code, convention_code, bool_code,
}
use universal_symbols.Serializers.{Answer, Disk, store, ISerializer}

-- `grow` is the arithmetic in doubles of `Writer::WriteImpl`.
module _ (grow : ℕ → ℕ) where
  unfoldable pub serialize_header : Usym → Step
  serialize_header u = do
    write grow 4 u.header.magic
    write grow 1 (format_code u.header.original_format)
    write grow 1 (architecture_code u.header.architecture)

  unfoldable pub serialize_fields : List FieldSymbol → Step
  serialize_fields [] = some
  serialize_fields (f ∷ fs) = do
    write grow 4 f.id
    write_string grow f.name
    write grow 4 f.underlying_type_id
    write grow 8 f.offset
    write grow 1 (bool_code f.is_anonymous_union)
    write grow 4 f.union_id
    serialize_fields fs

  unfoldable pub serialize_types : Map TypeSymbol → Step
  serialize_types [] = some
  serialize_types ((id, t) ∷ m) = do
    write grow 4 t.id
    write_string grow t.name
    write grow 1 (type_code t.type)
    write grow 8 t.length
    write grow 8 t.field_count
    write grow 8 (length t.fields)
    serialize_fields t.fields
    write grow 4 t.typedef_source
    serialize_types m

  unfoldable pub serialize_type_symbols : Usym → Step
  serialize_type_symbols u = do write grow 8 (length u.type_symbols); serialize_types u.type_symbols

  unfoldable pub serialize_ids : List ℕ → Step
  serialize_ids [] = some
  serialize_ids (id ∷ ids) = do write grow 4 id; serialize_ids ids

  unfoldable pub serialize_functions : Map FunctionSymbol → Step
  serialize_functions [] = some
  serialize_functions ((id, f) ∷ m) = do
    write grow 4 f.id
    write_string grow f.name
    write grow 4 f.return_type_id
    write grow 4 f.argument_count
    write grow 8 (length f.argument_type_ids)
    serialize_ids f.argument_type_ids
    write grow 1 (convention_code f.calling_convention)
    write grow 8 f.virtual_address
    serialize_functions m

  unfoldable pub serialize_function_symbols : Usym → Step
  serialize_function_symbols u = do
    write grow 8 (length u.function_symbols)
    serialize_functions u.function_symbols

-- The object: `pUsym` is empty until `Setup` points it to the symbols.
pub record BinarySerializer : Type 0 where
  pub target_file_name : Text
  pub usym : Option Usym
  pub writer : Buffer

-- The writer begins with a block of 1,000,000,000 bytes.
unfoldable pub new : BinarySerializer
new = record { target_file_name = []; usym = none; writer = sized 1_000_000_000 }

unfoldable pub setup : Text → Usym → BinarySerializer → BinarySerializer
setup target u s = record s { target_file_name = target ++ codes ".usym"; usym = some u }

-- A step that follows `pUsym`, and then returns true.
unfoldable pub with_usym : (Usym → Step) → BinarySerializer → Option (BinarySerializer × Bool)
with_usym step s = do u ← s.usym; w ← step u s.writer; some (record s { writer = w }, true)

unfoldable pub write_to_file :
    BinarySerializer → Disk → Option (BinarySerializer × Disk × Answer Bool)
write_to_file s d = Writer.write_to_file (d.opens s.target_file_name) s.writer >>= λ r. elim r [
  | Saved.refused ↦ some (s, d, Answer.returned false)
  | Saved.saved bytes ↦ some (s, store s.target_file_name bytes d, Answer.returned true)
]

unfoldable pub serializer : (ℕ → ℕ) → ISerializer BinarySerializer
unfolding with_usym write_to_file
serializer grow = record {
  target_file_name = λ s. s.target_file_name;
  has_data = λ s. elim s.usym [ none ↦ false | some u ↦ true ];
  serialize_header = with_usym (serialize_header grow);
  serialize_type_symbols = with_usym (serialize_type_symbols grow);
  serialize_function_symbols = with_usym (serialize_function_symbols grow);
  write_to_file = write_to_file;
}
