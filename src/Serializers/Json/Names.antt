-- ===== src/Serializers/Json/Names.antt =====
-- When `JsonSerializer::WriteToFile` prints the whole value without an exception.
use universal_symbols.Prelude.{
  ℕ, ◌≡◌, refl, sym, ◌∙◌, Bool, true, false, ◌&&◌, List, [], ◌∷◌, all, arith, Text, codes,
  Bool-cases, inl, inr,
}
use universal_symbols.Prelude.Map.{Distinct}
use universal_symbols.Usym.{Usym, TypeSymbol, FunctionSymbol}
use universal_symbols.Serializers.Codes.{format_code, architecture_code}
use universal_symbols.Serializers.Library.{TextMap, is_utf8, JsonLibrary, IsJsonLibrary}
use universal_symbols.Serializers.Json.{
  id_json_map, header_json, type_json, function_json, type_symbols_json, function_symbols_json,
}
use universal_symbols.Serializers.Json.Shows.{
  assign_all, get-assign_all, type_json-Shows, function_json-Shows,
}
use universal_symbols.Serializers.Json.Printing.{
  type_named, function_named, assign_all-IsReady, type_json-IsReady, function_json-IsReady,
  type_printed, function_printed,
}
use universal_symbols.Serializers.Json.Maps.{id_json_map-prints, id_json_map-printed}
use universal_symbols.Serializers.Json.Contents.{usym_json}

-- The names of all types, of their fields and of all functions are UTF-8.
unfoldable pub has_utf8_names : Usym → Bool
has_utf8_names u =
    all (λ e. type_named e.1) u.type_symbols && all (λ e. function_named e.1) u.function_symbols

eq_if_both : (a b : Bool) → (a ≡ true → b ≡ true) → (b ≡ true → a ≡ true) → a ≡ b
eq_if_both true b f g = sym (f refl)
eq_if_both false b f g = elim (Bool-cases b) [ inl e ↦ g e ∙ sym e | inr e ↦ sym e ]

module _ (l : JsonLibrary) (laws : IsJsonLibrary l) where
  open l use {Json, null, number, object, get, takes_keys, prints}

  module _ (u : Usym) (j : Json) (ok : takes_keys j ≡ true) where
    types_map : TextMap Json
    types_map = id_json_map l (type_json l) u.type_symbols []

    functions_map : TextMap Json
    functions_map = id_json_map l (function_json l) u.function_symbols []

    assignments : List (Text × Json)
    assignments =
        (codes "magic", number u.header.magic)
        ∷ (codes "originalFormat", number (format_code u.header.original_format))
        ∷ (codes "architecture", number (architecture_code u.header.architecture))
        ∷ (codes "typeSymbols", object types_map)
        ∷ (codes "functionSymbols", object functions_map)
        ∷ []

    named-prints : has_utf8_names u ≡ true → prints j ≡ true → prints (usym_json l laws u j) ≡ true
    unfolding header_json type_symbols_json function_symbols_json assign_all assignments types_map
        functions_map has_utf8_names is_utf8
    named-prints named fresh =
        let types : prints (object types_map) ≡ true =
          id_json_map-prints l laws (type_json l) type_named (type_json-IsReady l laws)
            u.type_symbols (ground arith) in
        let functions : prints (object functions_map) ≡ true =
          id_json_map-prints l laws (function_json l) function_named (function_json-IsReady l laws)
            u.function_symbols (ground arith) in
        (assign_all-IsReady l laws assignments j
          (
            (refl, laws.prints-number _),
            (
              (refl, laws.prints-number _),
              ((refl, laws.prints-number _), ((refl, types), ((refl, functions), tt))),
            ),
          )
          (ok, fresh)).1

    prints-named :
        Distinct u.type_symbols
        → Distinct u.function_symbols
        → prints (usym_json l laws u j) ≡ true
        → has_utf8_names u ≡ true
    unfolding header_json type_symbols_json function_symbols_json assign_all assignments types_map
        functions_map has_utf8_names
    prints-named dt df printed =
        let types : all (λ (e : ℕ × TypeSymbol). type_named e.1) u.type_symbols ≡ true =
          id_json_map-printed l laws (type_json l) type_named
            (λ t. type_printed l laws t _ (type_json-Shows l laws t null laws.takes_keys-null))
            u.type_symbols dt
            (laws.prints-get (codes "typeSymbols") (object types_map) _ printed
              (get-assign_all l laws (codes "typeSymbols") assignments j ok)) in
        let functions : all (λ (e : ℕ × FunctionSymbol). function_named e.1) u.function_symbols
            ≡ true =
          id_json_map-printed l laws (function_json l) function_named
            (λ f.
              function_printed l laws f _ (function_json-Shows l laws f null laws.takes_keys-null))
            u.function_symbols df
            (laws.prints-get (codes "functionSymbols") (object functions_map) _ printed
              (get-assign_all l laws (codes "functionSymbols") assignments j ok)) in
        rw (types, functions) refl

    -- The value prints exactly where all names are UTF-8.
    pub prints-usym_json :
        Distinct u.type_symbols
        → Distinct u.function_symbols
        → prints j ≡ true
        → prints (usym_json l laws u j) ≡ has_utf8_names u
    prints-usym_json dt df fresh =
        eq_if_both _ _ (prints-named dt df) λ named. named-prints named fresh
