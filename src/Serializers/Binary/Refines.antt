-- ===== src/Serializers/Binary/Refines.antt =====
-- The steps of the binary serializer append the format's bytes.
use universal_symbols.Prelude.{ℕ, ◌*◌, ◌≤◌, List, [], ◌∷◌, ◌++◌, length}
use universal_symbols.Prelude.Map.{Map}
use universal_symbols.ReCore.Writer.Steps.{
  Writes, Writes-none, Writes-seq, Writes-write, Writes-write_string,
}
use universal_symbols.ReCore.Memory.{le_bytes}
use universal_symbols.Usym.{FieldSymbol, TypeSymbol, FunctionSymbol, Usym}
use universal_symbols.Serializers.Codes.{format_code, architecture_code}
use universal_symbols.Serializers.Binary.{
  serialize_header, serialize_fields, serialize_types, serialize_type_symbols, serialize_ids,
  serialize_functions, serialize_function_symbols,
}
use universal_symbols.Serializers.Binary.Format.{
  header_bytes, fields_bytes, types_bytes, ids_bytes, functions_bytes,
}

module _ (grow : ℕ → ℕ) (bound : (n : ℕ) → grow n ≤ 2 * n) where
  pub serialize_header-Writes :
      (u : Usym) → Writes (serialize_header grow u) (header_bytes u.header)
  unfolding serialize_header header_bytes
  serialize_header-Writes u = Writes-seq _ _ _ _ (Writes-write grow bound 4 u.header.magic) (
      Writes-seq _ _ _ _ (Writes-write grow bound 1 (format_code u.header.original_format))
        (Writes-write grow bound 1 (architecture_code u.header.architecture)))

  serialize_fields-Writes :
      (fs : List FieldSymbol) → Writes (serialize_fields grow fs) (fields_bytes fs)
  unfolding serialize_fields fields_bytes
  serialize_fields-Writes [] = Writes-none
  serialize_fields-Writes (f ∷ fs) =
      let rest = serialize_fields-Writes fs in
      search (Writes-seq, Writes-write grow bound, Writes-write_string grow bound, rest) depth 12

  serialize_types-Writes : (m : Map TypeSymbol) → Writes (serialize_types grow m) (types_bytes m)
  unfolding serialize_types types_bytes
  serialize_types-Writes [] = Writes-none
  serialize_types-Writes ((id, t) ∷ m) =
      let rest = serialize_types-Writes m in
      let fields = serialize_fields-Writes t.fields in
      search (Writes-seq, Writes-write grow bound, Writes-write_string grow bound, fields, rest)
        depth 14

  pub serialize_type_symbols-Writes :
      (u : Usym)
      → Writes
          (serialize_type_symbols grow u)
          (le_bytes 8 (length u.type_symbols) ++ types_bytes u.type_symbols)
  unfolding serialize_type_symbols
  serialize_type_symbols-Writes u =
      Writes-seq _ _ _ _ (Writes-write grow bound 8 (length u.type_symbols))
        (serialize_types-Writes u.type_symbols)

  serialize_ids-Writes : (ids : List ℕ) → Writes (serialize_ids grow ids) (ids_bytes ids)
  unfolding serialize_ids ids_bytes
  serialize_ids-Writes [] = Writes-none
  serialize_ids-Writes (id ∷ ids) =
      Writes-seq _ _ _ _ (Writes-write grow bound 4 id) (serialize_ids-Writes ids)

  serialize_functions-Writes :
      (m : Map FunctionSymbol) → Writes (serialize_functions grow m) (functions_bytes m)
  unfolding serialize_functions functions_bytes
  serialize_functions-Writes [] = Writes-none
  serialize_functions-Writes ((id, f) ∷ m) =
      let rest = serialize_functions-Writes m in
      let ids = serialize_ids-Writes f.argument_type_ids in
      search (Writes-seq, Writes-write grow bound, Writes-write_string grow bound, ids, rest) depth
        14

  pub serialize_function_symbols-Writes :
      (u : Usym)
      → Writes
          (serialize_function_symbols grow u)
          (le_bytes 8 (length u.function_symbols) ++ functions_bytes u.function_symbols)
  unfolding serialize_function_symbols
  serialize_function_symbols-Writes u =
      Writes-seq _ _ _ _ (Writes-write grow bound 8 (length u.function_symbols))
        (serialize_functions-Writes u.function_symbols)
