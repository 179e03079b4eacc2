-- ===== src/Serializers/Json/Printing.antt =====
-- When `JsonSerializer::WriteToFile` prints its value without an exception: what the printing of the
-- values of single symbols comes down to.
use universal_symbols.Prelude.{
  ℕ, ◌≡◌, refl, ◌∙◌, Bool, true, ◌&&◌, List, [], ◌∷◌, map, some, all, All, arith, Text, codes,
}
use universal_symbols.Usym.{FieldSymbol, TypeSymbol, FunctionSymbol}
use universal_symbols.Serializers.Library.{is_utf8, JsonLibrary, IsJsonLibrary}
use universal_symbols.Serializers.Json.{field_json, type_json, function_json}
use universal_symbols.Serializers.Json.Shows.{
  assign_all, field_assignments, type_json_assignments, function_json_assignments, ShowsFields,
  ShowsType, ShowsFunction,
}

unfoldable pub field_named : FieldSymbol → Bool
field_named f = is_utf8 f.name

unfoldable pub type_named : TypeSymbol → Bool
type_named t = is_utf8 t.name && all field_named t.fields

unfoldable pub function_named : FunctionSymbol → Bool
function_named f = is_utf8 f.name

module _ (l : JsonLibrary) (laws : IsJsonLibrary l) where
  open l use {Json, null, number, text, boolean, array, object, set, get, takes_keys, prints}

  abbrev pub IsPrintable : Text × Json → Type 0
  IsPrintable e = (is_utf8 e.0 ≡ true) × (prints e.1 ≡ true)

  -- A value that more can be added to and that prints.
  abbrev pub IsReady : Json → Type 0
  IsReady j = (takes_keys j ≡ true) × (prints j ≡ true)

  pub assign_all-IsReady :
      (kvs : List (Text × Json)) (j : Json)
      → All IsPrintable kvs
      → IsReady j
      → IsReady (assign_all l laws kvs j)
  unfolding assign_all
  assign_all-IsReady [] j h ready = ready
  assign_all-IsReady ((k, v) ∷ kvs) j h ready =
      assign_all-IsReady kvs (set k v j) h.1
        (laws.takes_keys-set k v j ready.0, laws.prints-set k v j ready.0 h.0.0 h.0.1 ready.1)

  field_json-prints : (f : FieldSymbol) → field_named f ≡ true → prints (field_json l f) ≡ true
  unfolding field_json assign_all field_assignments field_named is_utf8
  field_json-prints f named =
      (assign_all-IsReady (field_assignments l laws f) null
        (
          (refl, laws.prints-number f.id),
          (
            (refl, laws.prints-text f.name ∙ named),
            (
              (refl, laws.prints-number f.underlying_type_id),
              (
                (refl, laws.prints-number f.offset),
                (
                  (refl, laws.prints-boolean f.is_anonymous_union),
                  ((refl, laws.prints-number f.union_id), tt),
                ),
              ),
            ),
          ),
        )
        (laws.takes_keys-null, laws.prints-null)).1

  fields_json-prints :
      (fs : List FieldSymbol)
      → all field_named fs ≡ true
      → all prints (map (field_json l) fs) ≡ true
  fields_json-prints [] h = refl
  fields_json-prints (f ∷ fs) h = ground (arith, field_json-prints f, fields_json-prints fs)

  pub type_json-IsReady :
      (t : TypeSymbol) (j : Json) → type_named t ≡ true → IsReady j → IsReady (type_json l t j)
  unfolding type_json assign_all type_json_assignments type_named is_utf8
  type_json-IsReady t j named ready =
      let own : is_utf8 t.name ≡ true = ground arith in
      let inside : all field_named t.fields ≡ true = ground arith in
      assign_all-IsReady (type_json_assignments l laws t) j
        (
          (refl, laws.prints-number t.id),
          (
            (refl, laws.prints-text t.name ∙ own),
            (
              (refl, laws.prints-number _),
              (
                (refl, laws.prints-number t.length),
                (
                  (refl, laws.prints-number t.field_count),
                  (
                    (refl, laws.prints-number t.typedef_source),
                    ((refl, laws.prints-array _ ∙ fields_json-prints t.fields inside), tt),
                  ),
                ),
              ),
            ),
          ),
        )
        ready

  numbers-print : (ns : List ℕ) → all prints (map number ns) ≡ true
  numbers-print [] = refl
  numbers-print (n ∷ ns) = rw (laws.prints-number n) (numbers-print ns)

  pub function_json-IsReady :
      (f : FunctionSymbol) (j : Json)
      → function_named f ≡ true
      → IsReady j
      → IsReady (function_json l f j)
  unfolding function_json assign_all function_json_assignments function_named is_utf8
  function_json-IsReady f j named ready =
      assign_all-IsReady (function_json_assignments l laws f) j
        (
          (refl, laws.prints-number f.id),
          (
            (refl, laws.prints-text f.name ∙ named),
            (
              (refl, laws.prints-number f.return_type_id),
              (
                (refl, laws.prints-number f.argument_count),
                (
                  (refl, laws.prints-array _ ∙ numbers-print f.argument_type_ids),
                  (
                    (refl, laws.prints-number _),
                    ((refl, laws.prints-number f.virtual_address), tt),
                  ),
                ),
              ),
            ),
          ),
        )
        ready

  -- A text that stands in a value that prints is UTF-8.
  text_printed :
      (k s : Text) (j : Json) → prints j ≡ true → get k j ≡ some (text s) → is_utf8 s ≡ true
  text_printed k s j ok got = rw (← laws.prints-text s) (laws.prints-get k (text s) j ok got)

  fields_printed :
      (fs : List FieldSymbol) (os : List Json)
      → ShowsFields l laws fs os
      → all prints os ≡ true
      → all field_named fs ≡ true
  unfolding field_named
  fields_printed [] [] shows ok = refl
  fields_printed [] (o ∷ os) shows ok = absurd shows
  fields_printed (f ∷ fs) [] shows ok = absurd shows
  fields_printed (f ∷ fs) (o ∷ os) shows ok =
      let one : prints o ≡ true = ground arith in
      let more : all prints os ≡ true = ground arith in
      rw (text_printed (codes "name") f.name o one shows.0.name, fields_printed fs os shows.1 more)
        refl

  pub type_printed :
      (t : TypeSymbol) (o : Json) → ShowsType l laws t o → prints o ≡ true → type_named t ≡ true
  unfolding type_named
  type_printed t o shows ok =
      let (os, at, each) = shows.fields in
      let inside : all prints os ≡ true =
        rw (← laws.prints-array os) (laws.prints-get (codes "fields") (array os) o ok at) in
      rw
        (text_printed (codes "name") t.name o ok shows.name, fields_printed t.fields os each inside)
        refl

  pub function_printed :
      (f : FunctionSymbol) (o : Json)
      → ShowsFunction l laws f o
      → prints o ≡ true
      → function_named f ≡ true
  unfolding function_named
  function_printed f o shows ok = text_printed (codes "name") f.name o ok shows.name
