-- ===== src/Serializers/Json/Maps.antt =====
-- The maps of symbols in the JSON value: one prints where the names of its symbols are UTF-8, and only
-- there.
use universal_symbols.Prelude.{
  ℕ, ◌≡◌, refl, ◌∙◌, Bool, true, [], ◌∷◌, some, all, All, all→All, arith, Text, text_eq, get_or,
  Bool-cases, inl, inr,
}
use universal_symbols.Prelude.Map.{Map, find, Distinct}
use universal_symbols.Prelude.Decimal.{to_string, to_string-ascii}
use universal_symbols.Serializers.Library.{
  TextMap, lookup, assign, is_utf8, is_utf8-ascii, JsonLibrary, IsJsonLibrary,
}
use universal_symbols.Serializers.Json.{id_json_map}
use universal_symbols.Serializers.Json.Printing.{IsReady, IsPrintable}
use universal_symbols.Serializers.Json.Ids.{lookup-id_json_map}

all_found :
    {V : Type 0} (p : V → Bool) (m : Map V)
    → Distinct m
    → ((k : ℕ) (v : V) → find k m ≡ some v → p v ≡ true)
    → all (λ e. p e.1) m ≡ true
all_found p [] d h = refl
all_found p ((k, v) ∷ m) d h =
    let here : p v ≡ true = h k v (ground arith) in
    rw (here, all_found p m d.1 λ i w e. h i w (ground (arith, d.0))) refl

module _ (l : JsonLibrary) (laws : IsJsonLibrary l) where
  open l use {Json, null, object, get, takes_keys, prints}

  module _ {V : Type 0} (json : V → Json → Json) (named : V → Bool) where
    abbrev IsEntry : Text × Json → Type 0
    IsEntry e = (is_utf8 e.0 ≡ true) × IsReady l laws e.1

    lookup-IsReady :
        (k : Text) (acc : TextMap Json)
        → All IsEntry acc
        → IsReady l laws (get_or (lookup k acc) null)
    lookup-IsReady k [] h = (laws.takes_keys-null, laws.prints-null)
    lookup-IsReady k ((j, w) ∷ acc) h = elim (Bool-cases (text_eq j k)) [
      | inl here ↦ rw here h.0.1
      | inr elsewhere ↦ rw elsewhere (lookup-IsReady k acc h.1)
    ]

    assign-IsEntry :
        (k : Text) (v : Json) (acc : TextMap Json)
        → IsEntry (k, v)
        → All IsEntry acc
        → All IsEntry (assign k v acc)
    unfolding assign
    assign-IsEntry k v [] new h = (new, tt)
    assign-IsEntry k v ((j, w) ∷ acc) new h = elim (Bool-cases (text_eq j k)) [
      | inl here ↦ rw here ((h.0.0, new.1), h.1)
      | inr elsewhere ↦ rw elsewhere (h.0, assign-IsEntry k v acc new h.1)
    ]

    id_json_map-IsEntry :
        (step : (v : V) (j : Json) → named v ≡ true → IsReady l laws j → IsReady l laws (json v j))
        (m : Map V) (acc : TextMap Json)
        → All (λ e. named e.1 ≡ true) m
        → All IsEntry acc
        → All IsEntry (id_json_map l json m acc)
    unfolding id_json_map
    id_json_map-IsEntry step [] acc h done = done
    id_json_map-IsEntry step ((id, v) ∷ m) acc h done = id_json_map-IsEntry step m _ h.1 (
        assign-IsEntry (to_string id) _ acc
          (
            is_utf8-ascii (to_string id) (to_string-ascii id),
            step v _ h.0 (lookup-IsReady (to_string id) acc done),
          )
          done)

    All-IsPrintable : (m : TextMap Json) → All IsEntry m → All (IsPrintable l laws) m
    All-IsPrintable [] h = tt
    All-IsPrintable (e ∷ m) h = ((h.0.0, h.0.1.1), All-IsPrintable m h.1)

    -- The object of a map prints if the names of its symbols are UTF-8, and only then.
    pub id_json_map-prints :
        ((v : V) (j : Json) → named v ≡ true → IsReady l laws j → IsReady l laws (json v j))
        → (m : Map V) → all (λ e. named e.1) m ≡ true
        → prints (object (id_json_map l json m [])) ≡ true
    id_json_map-prints step m h =
        laws.prints-object _
          (All-IsPrintable _ (id_json_map-IsEntry step m [] (all→All (λ e. named e.1) m h) tt))

    pub id_json_map-printed :
        ((v : V) → prints (json v null) ≡ true → named v ≡ true)
        → (m : Map V) → Distinct m
        → prints (object (id_json_map l json m [])) ≡ true
        → all (λ e. named e.1) m ≡ true
    id_json_map-printed shown m d ok = all_found named m d λ k v e.
        let built : get (to_string k) (object (id_json_map l json m [])) ≡ some (json v null) =
          laws.get-object (to_string k) _ ∙ lookup-id_json_map l json k m d ∙ rw e refl in
        shown v (laws.prints-get (to_string k) _ _ ok built)
