-- ===== src/Serializers/Json/Shows.antt =====
-- What the JSON value of one symbol shows, for any library that keeps the documented laws.
use universal_symbols.Prelude.{
  ap, ◌∙◌, ◌≡◌, refl, true, List, [], ◌∷◌, map, Option, some, ap, ◌∙◌, Text, codes, text_eq,
  if◌then◌else◌,
}
use universal_symbols.Usym.{FieldSymbol, TypeSymbol, FunctionSymbol}
use universal_symbols.Serializers.Codes.{type_code, convention_code}
use universal_symbols.Serializers.Library.{JsonLibrary, IsJsonLibrary}
use universal_symbols.Serializers.Json.{field_json, type_json, function_json}

module _ (l : JsonLibrary) (laws : IsJsonLibrary l) where
  open l use {Json, null, number, text, boolean, array, object, set, get, takes_keys}

  -- Assignments to keys, one after the other.
  unfoldable pub assign_all : List (Text × Json) → Json → Json
  assign_all [] j = j
  assign_all ((k, v) ∷ kvs) j = assign_all kvs (set k v j)

  abbrev pub last_value : Text → List (Text × Json) → Option Json → Option Json
  last_value i [] d = d
  last_value i ((k, v) ∷ kvs) d = last_value i kvs (if text_eq k i then some v else d)

  pub get-assign_all :
      (i : Text) (kvs : List (Text × Json)) (j : Json)
      → takes_keys j ≡ true
      → get i (assign_all kvs j) ≡ last_value i kvs (get i j)
  unfolding assign_all
  get-assign_all i [] j ok = refl
  get-assign_all i ((k, v) ∷ kvs) j ok =
      get-assign_all i kvs (set k v j) (laws.takes_keys-set k v j ok)
      ∙ ap (last_value i kvs) (laws.get-set k i v j ok)

  pub record ShowsField (f : FieldSymbol) (o : Json) : Type 0 where
    pub id : get (codes "id") o ≡ some (number f.id)
    pub name : get (codes "name") o ≡ some (text f.name)
    pub underlying_type_id : get (codes "underlyingTypeId") o ≡ some (number f.underlying_type_id)
    pub offset : get (codes "offset") o ≡ some (number f.offset)
    pub is_anonymous_union : get (codes "isAnonymousUnion") o ≡ some (boolean f.is_anonymous_union)
    pub union_id : get (codes "unionId") o ≡ some (number f.union_id)

  unfoldable pub field_assignments : FieldSymbol → List (Text × Json)
  field_assignments f =
      (codes "id", number f.id)
      ∷ (codes "name", text f.name)
      ∷ (codes "underlyingTypeId", number f.underlying_type_id)
      ∷ (codes "offset", number f.offset)
      ∷ (codes "isAnonymousUnion", boolean f.is_anonymous_union)
      ∷ (codes "unionId", number f.union_id)
      ∷ []

  pub field_json-Shows : (f : FieldSymbol) → ShowsField f (field_json l f)
  unfolding field_json assign_all field_assignments
  field_json-Shows f = record {
    id = read (codes "id");
    name = read (codes "name");
    underlying_type_id = read (codes "underlyingTypeId");
    offset = read (codes "offset");
    is_anonymous_union = read (codes "isAnonymousUnion");
    union_id = read (codes "unionId");
  }
    where
      read :
          (i : Text)
          → get i (assign_all (field_assignments f) null)
            ≡ last_value i (field_assignments f) (get i null)
      read i = get-assign_all i (field_assignments f) null laws.takes_keys-null

  -- One object for each field, in their order.
  abbrev pub ShowsFields : List FieldSymbol → List Json → Type 0
  ShowsFields [] [] = Unit
  ShowsFields (f ∷ fs) (o ∷ os) = ShowsField f o × ShowsFields fs os
  ShowsFields [] (o ∷ os) = ⊥
  ShowsFields (f ∷ fs) [] = ⊥

  fields_json-Shows : (fs : List FieldSymbol) → ShowsFields fs (map (field_json l) fs)
  fields_json-Shows [] = tt
  fields_json-Shows (f ∷ fs) = (field_json-Shows f, fields_json-Shows fs)

  pub record ShowsType (t : TypeSymbol) (o : Json) : Type 0 where
    pub id : get (codes "id") o ≡ some (number t.id)
    pub name : get (codes "name") o ≡ some (text t.name)
    pub type : get (codes "type") o ≡ some (number (type_code t.type))
    pub length : get (codes "length") o ≡ some (number t.length)
    pub field_count : get (codes "fieldCount") o ≡ some (number t.field_count)
    pub typedef_source : get (codes "typedefSource") o ≡ some (number t.typedef_source)
    pub fields :
        (os : List Json) × (get (codes "fields") o ≡ some (array os)) × ShowsFields t.fields os

  unfoldable pub type_json_assignments : TypeSymbol → List (Text × Json)
  type_json_assignments t =
      (codes "id", number t.id)
      ∷ (codes "name", text t.name)
      ∷ (codes "type", number (type_code t.type))
      ∷ (codes "length", number t.length)
      ∷ (codes "fieldCount", number t.field_count)
      ∷ (codes "typedefSource", number t.typedef_source)
      ∷ (codes "fields", array (map (field_json l) t.fields))
      ∷ []

  pub type_json-Shows :
      (t : TypeSymbol) (j : Json) → takes_keys j ≡ true → ShowsType t (type_json l t j)
  unfolding type_json assign_all type_json_assignments
  type_json-Shows t j ok = record {
    id = read (codes "id");
    name = read (codes "name");
    type = read (codes "type");
    length = read (codes "length");
    field_count = read (codes "fieldCount");
    typedef_source = read (codes "typedefSource");
    fields = (map (field_json l) t.fields, read (codes "fields"), fields_json-Shows t.fields);
  }
    where
      read :
          (i : Text)
          → get i (assign_all (type_json_assignments t) j)
            ≡ last_value i (type_json_assignments t) (get i j)
      read i = get-assign_all i (type_json_assignments t) j ok

  pub record ShowsFunction (f : FunctionSymbol) (o : Json) : Type 0 where
    pub id : get (codes "id") o ≡ some (number f.id)
    pub name : get (codes "name") o ≡ some (text f.name)
    pub return_type_id : get (codes "returnTypeId") o ≡ some (number f.return_type_id)
    pub argument_count : get (codes "argumentCount") o ≡ some (number f.argument_count)
    pub argument_type_ids :
        get (codes "argumentTypeIds") o ≡ some (array (map number f.argument_type_ids))
    pub calling_convention :
        get (codes "callingConvention") o ≡ some (number (convention_code f.calling_convention))
    pub virtual_address : get (codes "virtualAddress") o ≡ some (number f.virtual_address)

  unfoldable pub function_json_assignments : FunctionSymbol → List (Text × Json)
  function_json_assignments f =
      (codes "id", number f.id)
      ∷ (codes "name", text f.name)
      ∷ (codes "returnTypeId", number f.return_type_id)
      ∷ (codes "argumentCount", number f.argument_count)
      ∷ (codes "argumentTypeIds", array (map number f.argument_type_ids))
      ∷ (codes "callingConvention", number (convention_code f.calling_convention))
      ∷ (codes "virtualAddress", number f.virtual_address)
      ∷ []

  pub function_json-Shows :
      (f : FunctionSymbol) (j : Json) → takes_keys j ≡ true → ShowsFunction f (function_json l f j)
  unfolding function_json assign_all function_json_assignments
  function_json-Shows f j ok = record {
    id = read (codes "id");
    name = read (codes "name");
    return_type_id = read (codes "returnTypeId");
    argument_count = read (codes "argumentCount");
    argument_type_ids = read (codes "argumentTypeIds");
    calling_convention = read (codes "callingConvention");
    virtual_address = read (codes "virtualAddress");
  }
    where
      read :
          (i : Text)
          → get i (assign_all (function_json_assignments f) j)
            ≡ last_value i (function_json_assignments f) (get i j)
      read i = get-assign_all i (function_json_assignments f) j ok
