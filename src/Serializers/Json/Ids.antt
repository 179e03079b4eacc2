-- ===== src/Serializers/Json/Ids.antt =====
-- `idJsonMap`: one entry for each symbol.
use universal_symbols.Prelude.{
  ℕ, ◌≡◌, refl, ◌∙◌, true, [], ◌∷◌, none, some, arith, ◌==◌, ==_iff, Text, text_eq, text_eq→eq,
  eq→text_eq, text_eq_refl, if◌then◌else◌, get_or, Bool-cases, inl, inr,
}
use universal_symbols.Prelude.Map.{Map, find, contains, Distinct}
use universal_symbols.Prelude.Decimal.{to_string, text_eq-to_string}
use universal_symbols.Serializers.Library.{TextMap, lookup, assign, JsonLibrary}
use universal_symbols.Serializers.Json.{id_json_map}

lookup-assign :
    {V : Type 0} (k i : Text) (v : V) (m : TextMap V)
    → lookup i (assign k v m) ≡ (if text_eq k i then some v else lookup i m)
unfolding assign
lookup-assign k i v [] = refl
lookup-assign k i v ((j, w) ∷ m) = ground (
  arith,
  lookup-assign k i v m,
  text_eq→eq j k,
  text_eq→eq j i,
  text_eq→eq k i,
  text_eq_refl i,
  eq→text_eq j i,
  eq→text_eq k i,
)

module _ (l : JsonLibrary) where
  open l use {Json, null}

  -- Every symbol stands under the digits of its id, and nothing else does.
  module _ {V : Type 0} (json : V → Json → Json) where
    id_json_map_other :
        (k : ℕ) (m : Map V) (acc : TextMap Json)
        → find k m ≡ none
        → lookup (to_string k) (id_json_map l json m acc) ≡ lookup (to_string k) acc
    unfolding id_json_map
    id_json_map_other k [] acc out = refl
    id_json_map_other k ((j, v) ∷ m) acc out =
        let entry = json v (get_or (lookup (to_string j) acc) null) in
        id_json_map_other k m (assign (to_string j) entry acc) (ground arith)
        ∙ lookup-assign (to_string j) (to_string k) entry acc
        ∙ ground (arith, text_eq-to_string j k)

    id_json_map_lem :
        (k : ℕ) (m : Map V) (acc : TextMap Json)
        → Distinct m
        → ((j : ℕ) → contains j m ≡ true → lookup (to_string j) acc ≡ none)
        → lookup (to_string k) acc ≡ none
        → lookup (to_string k) (id_json_map l json m acc)
          ≡ elim (find k m) [ none ↦ none | some v ↦ some (json v null) ]
    unfolding id_json_map
    id_json_map_lem k [] acc d fresh out = out
    id_json_map_lem k ((j, v) ∷ m) acc d fresh out = elim (Bool-cases (j == k)) [
      | inl here ↦ ground (
        arith,
        id_json_map_other k m (assign (to_string j) entry acc),
        lookup-assign (to_string j) (to_string k) entry acc,
        text_eq-to_string j k,
        fresh j,
        ==_iff j k,
      )
      | inr elsewhere ↦ ground (
        arith,
        id_json_map_lem k m (assign (to_string j) entry acc) d.1 fresh_behind (
            lookup-assign (to_string j) (to_string k) entry acc
            ∙ ground (arith, text_eq-to_string j k)),
      )
    ]
      where
        entry : l.Json
        entry = json v (get_or (lookup (to_string j) acc) l.null)

        fresh_behind :
            (i : ℕ)
            → contains i m ≡ true
            → lookup (to_string i) (assign (to_string j) entry acc) ≡ none
        fresh_behind i inside =
            lookup-assign (to_string j) (to_string i) entry acc
            ∙ ground (arith, text_eq-to_string j i, fresh i, ==_iff j i)

  pub lookup-id_json_map :
      {V : Type 0} (json : V → Json → Json) (k : ℕ) (m : Map V)
      → Distinct m
      → lookup (to_string k) (id_json_map l json m [])
        ≡ elim (find k m) [ none ↦ none | some v ↦ some (json v null) ]
  lookup-id_json_map json k m d = id_json_map_lem json k m [] d (λ j inside. refl) refl
