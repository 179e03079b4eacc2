-- ===== src/Usym/Hashing.antt =====
-- `std::hash` of field and type symbols (Components/UniversalSymbolsFormat/USYM.h).
pub mod LookAlikes
pub mod Equal
use universal_symbols.Prelude.{ℕ, bit_xor, List, [], ◌∷◌, Text}
use universal_symbols.Usym.{FieldSymbol, TypeSymbol}

-- The standard library's `hash<uint32_t>`, `hash<uint64_t>` and `hash<std::string>`.
pub record Hasher : Type 0 where
  pub u32 : ℕ → ℕ
  pub u64 : ℕ → ℕ
  pub text : Text → ℕ

module _ (h : Hasher) where
  unfoldable pub hash_field : FieldSymbol → ℕ
  hash_field f = h.u32 f.underlying_type_id

  -- The loop over the fields.
  unfoldable pub hash_fields : ℕ → List FieldSymbol → ℕ
  unfolding hash_field
  hash_fields acc [] = acc
  hash_fields acc (f ∷ fs) = hash_fields (bit_xor acc (hash_field f)) fs

  unfoldable pub hash_type : TypeSymbol → ℕ
  unfolding hash_fields
  hash_type t =
      bit_xor (hash_fields (bit_xor (h.u64 t.length) (h.u64 t.field_count)) t.fields)
        (h.text t.name)
