-- ===== src/Usym.antt =====
-- Components/UniversalSymbolsFormat/USYM.h: the symbols of a program in the universal format. The
-- base class `Symbol` is written out in each record; `unordered_map` is `Map` of the prelude.
pub mod Equality
pub mod Hashing
pub mod Purge
pub mod Verify
pub mod ByName
use universal_symbols.Prelude.{ℕ, Bool, false, List, [], Text}
use universal_symbols.Prelude.Map.{Map}

pub data OriginalFormat : Type 0 where
  pdb dwarf unknown : OriginalFormat

pub data Architecture : Type 0 where
  x86 x86_64 arm32 arm64 unknown : Architecture

pub record Header : Type 0 where
  pub magic : ℕ
  pub original_format : OriginalFormat
  pub architecture : Architecture

-- 'MYSU': the first letter is the highest byte.
abbrev pub new_header : Header
new_header = record {
  magic = 0x4d595355;
  original_format = OriginalFormat.unknown;
  architecture = Architecture.unknown;
}

pub record FieldSymbol : Type 0 where
  pub id : ℕ
  pub name : Text
  pub underlying_type_id : ℕ
  pub offset : ℕ
  pub is_anonymous_union : Bool
  pub union_id : ℕ

abbrev pub new_field : FieldSymbol
new_field = record {
  id = 0;
  name = [];
  underlying_type_id = 0;
  offset = 0;
  is_anonymous_union = false;
  union_id = 0;
}

-- `TypeSymbol::Type`
pub data TypeKind : Type 0 where
  base struct class union interface enum pointer typedef array unknown : TypeKind

pub record TypeSymbol : Type 0 where
  pub id : ℕ
  pub name : Text
  pub type : TypeKind
  pub length : ℕ
  pub field_count : ℕ
  pub fields : List FieldSymbol
  pub typedef_source : ℕ

abbrev pub new_type : TypeSymbol
new_type = record {
  id = 0;
  name = [];
  type = TypeKind.unknown;
  length = 0;
  field_count = 0;
  fields = [];
  typedef_source = 0;
}

pub data CallingConvention : Type 0 where
  near_c near_fast near_std near_sys thiscall clr_call unknown : CallingConvention

pub record FunctionSymbol : Type 0 where
  pub id : ℕ
  pub name : Text
  pub return_type_id : ℕ
  pub argument_count : ℕ
  pub argument_type_ids : List ℕ
  pub calling_convention : CallingConvention
  pub virtual_address : ℕ

abbrev pub new_function : FunctionSymbol
new_function = record {
  id = 0;
  name = [];
  return_type_id = 0;
  argument_count = 0;
  argument_type_ids = [];
  calling_convention = CallingConvention.unknown;
  virtual_address = 0;
}

-- The data of a `USYM`. Its serializer stands in `Serializers`.
pub record Usym : Type 0 where
  pub header : Header
  pub type_symbols : Map TypeSymbol
  pub function_symbols : Map FunctionSymbol

abbrev pub new : Usym
new = record { header = new_header; type_symbols = []; function_symbols = [] }
