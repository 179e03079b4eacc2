-- ===== src/Serializers/Json.antt =====
-- Components/UniversalSymbolsFormat/Serializers/JsonSerializer.h and JsonSerializer.cpp.
pub mod Shows
pub mod Ids
pub mod Printing
pub mod Maps
pub mod Contents
pub mod Names
use universal_symbols.Prelude.{
  ℕ, Bool, true, false, List, [], ◌∷◌, ◌++◌, map, Option, none, some, get_or, ◌>>=◌, Text, codes,
  if◌then◌else◌,
}
use universal_symbols.Prelude.Map.{Map}
use universal_symbols.Prelude.Decimal.{to_string}
use universal_symbols.Usym.{FieldSymbol, TypeSymbol, FunctionSymbol, Usym}
use universal_symbols.Serializers.Codes.{format_code, architecture_code, type_code, convention_code}
use universal_symbols.Serializers.Library.{TextMap, lookup, assign, JsonLibrary}
use universal_symbols.Serializers.{Answer, Disk, store, ISerializer}

module _ (l : JsonLibrary) where
  open l use {Json, null, start, number, text, boolean, array, object, set, prints, print}

  unfoldable pub header_json : Usym → Json → Json
  header_json u j =
      let j1 = set (codes "magic") (number u.header.magic) j in
      let j2 = set (codes "originalFormat") (number (format_code u.header.original_format)) j1 in
      set (codes "architecture") (number (architecture_code u.header.architecture)) j2

  unfoldable pub field_json : FieldSymbol → Json
  field_json f =
      let j1 = set (codes "id") (number f.id) null in
      let j2 = set (codes "name") (text f.name) j1 in
      let j3 = set (codes "underlyingTypeId") (number f.underlying_type_id) j2 in
      let j4 = set (codes "offset") (number f.offset) j3 in
      let j5 = set (codes "isAnonymousUnion") (boolean f.is_anonymous_union) j4 in
      set (codes "unionId") (number f.union_id) j5

  unfoldable pub type_json : TypeSymbol → Json → Json
  type_json t j0 =
      let j1 = set (codes "id") (number t.id) j0 in
      let j2 = set (codes "name") (text t.name) j1 in
      let j3 = set (codes "type") (number (type_code t.type)) j2 in
      let j4 = set (codes "length") (number t.length) j3 in
      let j5 = set (codes "fieldCount") (number t.field_count) j4 in
      let j6 = set (codes "typedefSource") (number t.typedef_source) j5 in
      set (codes "fields") (array (map field_json t.fields)) j6

  unfoldable pub function_json : FunctionSymbol → Json → Json
  function_json f j0 =
      let j1 = set (codes "id") (number f.id) j0 in
      let j2 = set (codes "name") (text f.name) j1 in
      let j3 = set (codes "returnTypeId") (number f.return_type_id) j2 in
      let j4 = set (codes "argumentCount") (number f.argument_count) j3 in
      let j5 = set (codes "argumentTypeIds") (array (map number f.argument_type_ids)) j4 in
      let j6 = set (codes "callingConvention") (number (convention_code f.calling_convention)) j5 in
      set (codes "virtualAddress") (number f.virtual_address) j6

  -- The loop that fills `idJsonMap`: a new entry begins as null.
  unfoldable pub id_json_map :
      {V : Type 0} → (V → Json → Json) → Map V → TextMap Json → TextMap Json
  id_json_map json [] acc = acc
  id_json_map json ((id, v) ∷ m) acc =
      let entry = get_or (lookup (to_string id) acc) null in
      id_json_map json m (assign (to_string id) (json v entry) acc)

  unfoldable pub type_symbols_json : Usym → Json → Json
  unfolding id_json_map type_json
  type_symbols_json u j =
      set (codes "typeSymbols") (object (id_json_map type_json u.type_symbols [])) j

  unfoldable pub function_symbols_json : Usym → Json → Json
  unfolding id_json_map function_json
  function_symbols_json u j =
      set (codes "functionSymbols") (object (id_json_map function_json u.function_symbols [])) j

  pub record JsonSerializer : Type 0 where
    pub target_file_name : Text
    pub usym : Option Usym
    pub j : Json

  unfoldable pub new : JsonSerializer
  new = record { target_file_name = []; usym = none; j = start }

  unfoldable pub setup : Text → Usym → JsonSerializer → JsonSerializer
  setup target u s = record s { target_file_name = target ++ codes ".json"; usym = some u }

  -- A step that follows `pUsym`, and then returns true.
  unfoldable pub with_usym : (Usym → Json → Json) → JsonSerializer → Option (JsonSerializer × Bool)
  with_usym step s = do u ← s.usym; some (record s { j = step u s.j }, true)

  -- The file is opened, and so emptied, before the value is printed to it.
  unfoldable pub write_to_file :
      JsonSerializer → Disk → Option (JsonSerializer × Disk × Answer Bool)
  write_to_file s d =
      if d.opens s.target_file_name
      then some (
        s,
        store s.target_file_name (print s.j) d,
        if prints s.j then Answer.returned true else Answer.thrown,
      )
      else some (s, d, Answer.returned false)

  unfoldable pub serializer : ISerializer JsonSerializer
  unfolding with_usym write_to_file
  serializer = record {
    target_file_name = λ s. s.target_file_name;
    has_data = λ s. elim s.usym [ none ↦ false | some u ↦ true ];
    serialize_header = with_usym header_json;
    serialize_type_symbols = with_usym type_symbols_json;
    serialize_function_symbols = with_usym function_symbols_json;
    write_to_file = write_to_file;
  }
