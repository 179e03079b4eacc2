-- ===== src/Usym/Hashing/Equal.antt =====
-- `operator==` and `std::hash` of type symbols agree.
use universal_symbols.Prelude.{◌≡◌, refl, true, List, [], ◌∷◌, arith, text_eq→eq}
use universal_symbols.Usym.{FieldSymbol, TypeSymbol}
use universal_symbols.Usym.Equality.{field_eq, fields_eq, type_eq}
use universal_symbols.Usym.Hashing.{Hasher, hash_type}
use universal_symbols.Usym.Hashing.LookAlikes.{type_ids, hash_type-LooksLike}

fields_eq-type_ids :
    (as_ bs : List FieldSymbol) → fields_eq as_ bs ≡ true → type_ids as_ ≡ type_ids bs
unfolding fields_eq field_eq
fields_eq-type_ids [] [] h = refl
fields_eq-type_ids [] (b ∷ bs) h = cc
fields_eq-type_ids (a ∷ as_) [] h = cc
fields_eq-type_ids (a ∷ as_) (b ∷ bs) h =
    let rest = fields_eq-type_ids as_ bs (ground arith) in
    let same : a.underlying_type_id ≡ b.underlying_type_id = ground arith in λ i. same i ∷ rest i

-- Types that `operator==` takes to be equal have equal hashes, whatever the standard library's hashes
-- are.
pub hash_type-type_eq :
    (h : Hasher) (s t : TypeSymbol) → type_eq s t ≡ true → hash_type h s ≡ hash_type h t
unfolding type_eq
hash_type-type_eq h s t e = hash_type-LooksLike h s t (record {
  name = text_eq→eq s.name t.name (ground arith);
  length = ground arith;
  field_count = ground arith;
  fields = fields_eq-type_ids s.fields t.fields (ground arith);
})
