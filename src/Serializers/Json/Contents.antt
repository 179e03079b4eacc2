-- ===== src/Serializers/Json/Contents.antt =====
-- The value that the JSON serializer prints holds every symbol, and no other, for any library that
-- keeps the documented laws.
use universal_symbols.Prelude.{
  ℕ, ◌≡◌, ◌∙◌, true, List, [], ◌∷◌, Option, none, some, ◌>>=◌, Text, codes,
}
use universal_symbols.Prelude.Map.{Map, find, Distinct}
use universal_symbols.Prelude.Decimal.{to_string}
use universal_symbols.Usym.{Usym}
use universal_symbols.Serializers.Codes.{format_code, architecture_code}
use universal_symbols.Serializers.Library.{TextMap, JsonLibrary, IsJsonLibrary}
use universal_symbols.Serializers.Json.{
  id_json_map, header_json, type_json, function_json, type_symbols_json, function_symbols_json,
}
use universal_symbols.Serializers.Json.Shows.{
  ShowsType, ShowsFunction, assign_all, last_value, get-assign_all, type_json-Shows,
  function_json-Shows,
}
use universal_symbols.Serializers.Json.Ids.{lookup-id_json_map}

-- Both are missing, or both are there and related.
abbrev pub Agree : {A B : Type 0} → (A → B → Type 0) → Option A → Option B → Type 0
Agree R none none = Unit
Agree R (some a) (some b) = R a b
Agree R none (some b) = ⊥
Agree R (some a) none = ⊥

module _ (l : JsonLibrary) (laws : IsJsonLibrary l) where
  open l use {Json, null, number, object, get, takes_keys}

  -- The three steps of the template method, in its order.
  abbrev pub usym_json : Usym → Json → Json
  usym_json u j = function_symbols_json l u (type_symbols_json l u (header_json l u j))

  -- `j[group][to_string(id)]`
  abbrev pub entry : Text → ℕ → Json → Option Json
  entry group id j = get group j >>= get (to_string id)

  module _ {V : Type 0} (json : V → Json → Json) (R : V → Json → Type 0)
      (shows : (v : V) (j : Json) → takes_keys j ≡ true → R v (json v j)) where
    Agree-built : (o : Option V) → Agree R o (elim o [ none ↦ none | some v ↦ some (json v null) ])
    Agree-built none = tt
    Agree-built (some v) = shows v null laws.takes_keys-null

    Agree-entry :
        (group : Text) (id : ℕ) (m : Map V) (j : Json)
        → Distinct m
        → get group j ≡ some (object (id_json_map l json m []))
        → Agree R (find id m) (entry group id j)
    Agree-entry group id m j d got =
        let built : entry group id j
            ≡ elim (find id m) [ none ↦ none | some v ↦ some (json v null) ] =
          rw got (laws.get-object (to_string id) _ ∙ lookup-id_json_map l json id m d) in
        rw built (Agree-built (find id m))

  pub record ShowsUsym (u : Usym) (j : Json) : Type 0 where
    pub magic : get (codes "magic") j ≡ some (number u.header.magic)
    pub original_format :
        get (codes "originalFormat") j ≡ some (number (format_code u.header.original_format))
    pub architecture :
        get (codes "architecture") j ≡ some (number (architecture_code u.header.architecture))
    pub type_symbols :
        (id : ℕ)
        → Agree (ShowsType l laws) (find id u.type_symbols) (entry (codes "typeSymbols") id j)
    pub function_symbols :
        (id : ℕ)
        → Agree
            (ShowsFunction l laws)
            (find id u.function_symbols)
            (entry (codes "functionSymbols") id j)

  -- Whatever the value held before, after the three steps it shows these symbols.
  pub usym_json-Shows :
      (u : Usym) (j : Json)
      → Distinct u.type_symbols
      → Distinct u.function_symbols
      → takes_keys j ≡ true
      → ShowsUsym u (usym_json u j)
  unfolding header_json type_symbols_json function_symbols_json assign_all
  usym_json-Shows u j dt df ok = record {
    magic = read (codes "magic");
    original_format = read (codes "originalFormat");
    architecture = read (codes "architecture");
    type_symbols = λ id.
        Agree-entry (type_json l) (ShowsType l laws) (type_json-Shows l laws) (codes "typeSymbols")
          id u.type_symbols _ dt (read (codes "typeSymbols"));
    function_symbols = λ id.
        Agree-entry (function_json l) (ShowsFunction l laws) (function_json-Shows l laws)
          (codes "functionSymbols") id u.function_symbols _ df (read (codes "functionSymbols"));
  }
    where
      types_map : TextMap Json
      types_map = id_json_map l (type_json l) u.type_symbols []

      functions_map : TextMap Json
      functions_map = id_json_map l (function_json l) u.function_symbols []

      assignments : List (Text × Json)
      assignments =
          (codes "magic", number u.header.magic)
          ∷ (codes "originalFormat", number (format_code u.header.original_format))
          ∷ (codes "architecture", number (architecture_code u.header.architecture))
          ∷ (codes "typeSymbols", object types_map)
          ∷ (codes "functionSymbols", object functions_map)
          ∷ []

      read :
          (i : Text)
          → get i (assign_all l laws assignments j) ≡ last_value l laws i assignments (get i j)
      read i = get-assign_all l laws i assignments j ok
