-- ===== src/Usym/Equality.antt =====
-- `operator==` of field and type symbols (Components/UniversalSymbolsFormat/USYM.h).
use universal_symbols.Prelude.{Bool, true, false, ◌&&◌, List, [], ◌∷◌, ◌==◌, text_eq}
use universal_symbols.Usym.{FieldSymbol, TypeSymbol}

abbrev pub bool_eq : Bool → Bool → Bool
bool_eq true b = b
bool_eq false true = false
bool_eq false false = true

unfoldable pub field_eq : FieldSymbol → FieldSymbol → Bool
field_eq a b =
    (a.underlying_type_id == b.underlying_type_id)
    && ((a.offset == b.offset)
        && (text_eq a.name b.name
            && (bool_eq a.is_anonymous_union b.is_anonymous_union && (a.union_id == b.union_id))))

-- `==` of two vectors of fields.
unfoldable pub fields_eq : List FieldSymbol → List FieldSymbol → Bool
unfolding field_eq
fields_eq [] [] = true
fields_eq [] (b ∷ bs) = false
fields_eq (a ∷ as_) [] = false
fields_eq (a ∷ as_) (b ∷ bs) = field_eq a b && fields_eq as_ bs

unfoldable pub type_eq : TypeSymbol → TypeSymbol → Bool
unfolding fields_eq
type_eq a b =
    (a.length == b.length)
    && ((a.field_count == b.field_count)
        && (text_eq a.name b.name
            && (fields_eq a.fields b.fields && (a.typedef_source == b.typedef_source))))
