-- ===== src/Usym/Hashing/LookAlikes.antt =====
-- What `std::hash<USYM::TypeSymbol>` cannot tell apart, and what a purge makes of it.
use universal_symbols.Prelude.{
  ℕ, ◌≡◌, refl, true, false, List, [], ◌∷◌, ◌++◌, map, some, arith, bit_xor, is_some, ==-refl,
}
use universal_symbols.Prelude.Map.{Map, find, contains, Distinct}
use universal_symbols.Usym.{FieldSymbol, TypeSymbol, Usym}
use universal_symbols.Usym.Hashing.{Hasher, hash_fields, hash_type}
use universal_symbols.Usym.Purge.{purge_duplicate_types}
use universal_symbols.Usym.Purge.Scan.{first_id}
use universal_symbols.Usym.Purge.Survivors.{find-purge_duplicate_types}

abbrev pub type_ids : List FieldSymbol → List ℕ
type_ids fs = map (λ (f : FieldSymbol). f.underlying_type_id) fs

-- Equal name, length, field count and types of the fields, in their order. Kinds, the names and
-- offsets of the fields, and the sources of typedefs may differ.
pub record LooksLike (s t : TypeSymbol) : Type 0 where
  pub name : s.name ≡ t.name
  pub length : s.length ≡ t.length
  pub field_count : s.field_count ≡ t.field_count
  pub fields : type_ids s.fields ≡ type_ids t.fields

hash_ids : (h : Hasher) → ℕ → List ℕ → ℕ
hash_ids h acc [] = acc
hash_ids h acc (id ∷ ids) = hash_ids h (bit_xor acc (h.u32 id)) ids

hash_fields_lem :
    (h : Hasher) (acc : ℕ) (fs : List FieldSymbol)
    → hash_fields h acc fs ≡ hash_ids h acc (type_ids fs)
unfolding hash_fields hash_ids
hash_fields_lem h acc [] = refl
hash_fields_lem h acc (f ∷ fs) = hash_fields_lem h (bit_xor acc (h.u32 f.underlying_type_id)) fs

pub hash_type-LooksLike :
    (h : Hasher) (s t : TypeSymbol) → LooksLike s t → hash_type h s ≡ hash_type h t
unfolding hash_type
hash_type-LooksLike h s t same =
    let acc = bit_xor (h.u64 s.length) (h.u64 s.field_count) in
    let acc' = bit_xor (h.u64 t.length) (h.u64 t.field_count) in
    cc (
      hash_fields_lem h acc s.fields,
      hash_fields_lem h acc' t.fields,
      same.name,
      same.length,
      same.field_count,
      same.fields,
    )

first_id_there :
    (hash : TypeSymbol → ℕ) (j : ℕ) (s : TypeSymbol) (xs : Map TypeSymbol)
    → find j xs ≡ some s
    → is_some (first_id hash (hash s) xs) ≡ true
unfolding first_id
first_id_there hash j s [] e = cc
first_id_there hash j s ((i, t) ∷ xs) e =
    ground (arith, first_id_there hash j s xs, ==-refl (hash s))

-- Whatever the standard library's hashes are, and where every identity has one entry among the
-- types, a type is purged when one before it looks like it: it has the same name, size and
-- number of fields, and fields of the same types.
pub purge_look_alikes :
    (h : Hasher) (u : Usym) (xs ys : Map TypeSymbol) (j k : ℕ) (s t : TypeSymbol)
    → u.type_symbols ≡ xs ++ ((k, t) ∷ ys)
    → Distinct u.type_symbols
    → find j xs ≡ some s
    → LooksLike s t
    → contains k (purge_duplicate_types (hash_type h) u).type_symbols ≡ false
purge_look_alikes h u xs ys j k s t e d before same = ground (
  arith,
  find-purge_duplicate_types (hash_type h) u xs k t ys e d,
  first_id_there (hash_type h) j s xs,
  hash_type-LooksLike h s t same,
)
