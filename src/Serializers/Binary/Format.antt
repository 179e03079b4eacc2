-- ===== src/Serializers/Binary/Format.antt =====
-- The binary format without the writer: the bytes of each symbol, in the order of
-- Components/UniversalSymbolsFormat/Serializers/BinarySerializer.cpp.
use universal_symbols.Prelude.{ℕ, List, [], ◌∷◌, ◌++◌, length}
use universal_symbols.Prelude.Map.{Map}
use universal_symbols.ReCore.Memory.{le_bytes}
use universal_symbols.ReCore.Writer.Steps.{c_string}
use universal_symbols.Usym.{Header, FieldSymbol, TypeSymbol, FunctionSymbol, Usym}
use universal_symbols.Serializers.Codes.{
  format_code, architecture_code, type_code, convention_code, bool_code,
}

unfoldable pub header_bytes : Header → List ℕ
header_bytes h =
    le_bytes 4 h.magic
    ++ (le_bytes 1 (format_code h.original_format) ++ le_bytes 1 (architecture_code h.architecture))

unfoldable pub fields_bytes : List FieldSymbol → List ℕ
fields_bytes [] = []
fields_bytes (f ∷ fs) =
    le_bytes 4 f.id
    ++ (c_string f.name
        ++ (le_bytes 4 f.underlying_type_id
            ++ (le_bytes 8 f.offset
                ++ (le_bytes 1 (bool_code f.is_anonymous_union)
                    ++ (le_bytes 4 f.union_id ++ fields_bytes fs)))))

unfoldable pub types_bytes : Map TypeSymbol → List ℕ
types_bytes [] = []
types_bytes ((id, t) ∷ m) =
    le_bytes 4 t.id
    ++ (c_string t.name
        ++ (le_bytes 1 (type_code t.type)
            ++ (le_bytes 8 t.length
                ++ (le_bytes 8 t.field_count
                    ++ (le_bytes 8 (length t.fields)
                        ++ (fields_bytes t.fields
                            ++ (le_bytes 4 t.typedef_source ++ types_bytes m)))))))

unfoldable pub ids_bytes : List ℕ → List ℕ
ids_bytes [] = []
ids_bytes (id ∷ ids) = le_bytes 4 id ++ ids_bytes ids

unfoldable pub functions_bytes : Map FunctionSymbol → List ℕ
functions_bytes [] = []
functions_bytes ((id, f) ∷ m) =
    le_bytes 4 f.id
    ++ (c_string f.name
        ++ (le_bytes 4 f.return_type_id
            ++ (le_bytes 4 f.argument_count
                ++ (le_bytes 8 (length f.argument_type_ids)
                    ++ (ids_bytes f.argument_type_ids
                        ++ (le_bytes 1 (convention_code f.calling_convention)
                            ++ (le_bytes 8 f.virtual_address ++ functions_bytes m)))))))

unfoldable pub usym_bytes : Usym → List ℕ
usym_bytes u =
    header_bytes u.header
    ++ ((le_bytes 8 (length u.type_symbols) ++ types_bytes u.type_symbols)
        ++ (le_bytes 8 (length u.function_symbols) ++ functions_bytes u.function_symbols))
