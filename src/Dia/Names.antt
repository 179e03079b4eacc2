-- ===== src/Dia/Names.antt =====
-- Names of types, and the unions without a name among the fields.
use universal_symbols.Prelude.{
  ℕ, ◌+◌, ◌-◌, ◌%◌, ◌^◌, Bool, true, false, ◌||◌, List, [], ◌∷◌, ◌++◌, none, some, ◌==◌,
  if◌then◌else◌, ltb, Text, codes,
}
use universal_symbols.Prelude.Decimal.{to_string}
use universal_symbols.Usym.{FieldSymbol, TypeSymbol}
use universal_symbols.Dia.{Dia, Handle, BasicType}

unfoldable pub get_name_from_symbol : Dia → Handle → Text
get_name_from_symbol dia h = elim (dia.name h) [ none ↦ [] | some wide ↦ dia.narrow wide ]

-- The name by the size, or `other` for any other size.
unfoldable pub sized_name : Text → Text → Text → Text → Text → ℕ → Text
sized_name one two four eight other size =
    if size == 1
    then one
    else if size == 2
    then two
    else if size == 4
    then four
    else if size == 8
    then eight
    else other

unfoldable pub get_base_name : BasicType → ℕ → Text
unfolding sized_name
get_base_name BasicType.char size = codes "char"
get_base_name BasicType.wchar size = codes "wchar"
get_base_name BasicType.int size =
    sized_name (codes "int8_t") (codes "int16_t") (codes "int32_t") (codes "int64_t") (codes "int")
      size
get_base_name BasicType.uint size =
    sized_name (codes "uint8_t") (codes "uint16_t") (codes "uint32_t") (codes "uint64_t")
      (codes "uint") size
get_base_name BasicType.float size = if size == 4 then codes "float" else codes "double"
get_base_name BasicType.bool size = codes "bool"
get_base_name BasicType.long size = codes "long"
get_base_name BasicType.ulong size = codes "unsigned long"
get_base_name BasicType.char8 size = codes "char8_t"
get_base_name BasicType.char16 size = codes "char16_t"
get_base_name BasicType.char32 size = codes "char32_t"
get_base_name other_type size = codes "void"

-- The name of the `counter`-th pointer type.
unfoldable pub pointer_name : ℕ → Text
pointer_name counter = codes "pUnk" ++ to_string counter

-- A 32-bit `LONG` in a `size_t`: the sign is extended.
unfoldable pub sign_extended : ℕ → ℕ
sign_extended offset = if ltb offset (2 ^ 31) then offset else offset + (2 ^ 64 - 2 ^ 32)

-- The loop at two neighbours: the fields as it leaves them, the union's number and `wasLastUnion`.
pub record Seam : Type 0 where
  pub current : FieldSymbol
  pub next : FieldSymbol
  pub union_id : ℕ
  pub was_last_union : Bool

unfoldable pub seam : ℕ → Bool → FieldSymbol → FieldSymbol → Seam
seam union_id last current next =
    if (current.id == 0) || (next.id == 0)
    then record { current = current; next = next; union_id = union_id; was_last_union = last }
    else (if current.offset == next.offset
        then record {
          current = record current { is_anonymous_union = true; union_id = union_id };
          next = record next { is_anonymous_union = true; union_id = union_id };
          union_id = union_id;
          was_last_union = true;
        }
        else record {
          current = current;
          next = next;
          union_id = if last then (union_id + 1) % 2 ^ 32 else union_id;
          was_last_union = false;
        })

unfoldable pub mark_unions : ℕ → Bool → FieldSymbol → List FieldSymbol → List FieldSymbol
unfolding seam
mark_unions union_id last current [] = current ∷ []
mark_unions union_id last current (next ∷ fields) =
    let s = seam union_id last current next in
    s.current ∷ mark_unions s.union_id s.was_last_union s.next fields

unfoldable pub mark_fields : List FieldSymbol → List FieldSymbol
unfolding mark_unions
mark_fields [] = []
mark_fields (f ∷ fields) = mark_unions 0 false f fields

unfoldable pub set_anonymous_union_data : TypeSymbol → TypeSymbol
unfolding mark_fields
set_anonymous_union_data t = record t { fields = mark_fields t.fields }
