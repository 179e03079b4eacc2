-- ===== src/Usym/Purge.antt =====
-- `USYM::PurgeDuplicateTypes` (Components/UniversalSymbolsFormat/USYM.cpp).
pub mod Scan
pub mod Survivors
pub mod Settled
use universal_symbols.Prelude.{ℕ, Bool, List, [], ◌∷◌, map, Option, none, some}
use universal_symbols.Prelude.Map.{Map, find, contains, put, erase_if}
use universal_symbols.Usym.{FieldSymbol, TypeSymbol, FunctionSymbol, Usym}

-- The two maps of the first loop.
pub record Found : Type 0 where
  pub old_to_new : Map ℕ
  pub hashes_to_ids : Map ℕ

abbrev pub nothing_found : Found
nothing_found = record { old_to_new = []; hashes_to_ids = [] }

-- The hash of a type symbol is `std::hash<USYM::TypeSymbol>`, `Hashing.hash_type`.
module _ (hash : TypeSymbol → ℕ) where
  unfoldable pub scan_symbol : ℕ → TypeSymbol → Found → Found
  scan_symbol id symbol s = elim (find (hash symbol) s.hashes_to_ids) [
    | some fetched ↦ record s { old_to_new = put id fetched s.old_to_new }
    | none ↦ record s { hashes_to_ids = put (hash symbol) id s.hashes_to_ids }
  ]

  unfoldable pub scan : Map TypeSymbol → Found → Found
  unfolding scan_symbol
  scan [] s = s
  scan ((id, symbol) ∷ m) s = scan m (scan_symbol id symbol s)

-- An id that was replaced is followed to the one that stays.
unfoldable pub renamed : Map ℕ → ℕ → ℕ
renamed old_to_new id = elim (find id old_to_new) [ some new ↦ new | none ↦ id ]

unfoldable pub rename_field : Map ℕ → FieldSymbol → FieldSymbol
unfolding renamed
rename_field m f = record f { underlying_type_id = renamed m f.underlying_type_id }

unfoldable pub rename_type : Map ℕ → ℕ × TypeSymbol → ℕ × TypeSymbol
unfolding rename_field
rename_type m (id, t) = (
  id,
  record t { typedef_source = renamed m t.typedef_source; fields = map (rename_field m) t.fields },
)

unfoldable pub rename_function : Map ℕ → ℕ × FunctionSymbol → ℕ × FunctionSymbol
unfolding renamed
rename_function m (id, f) = (
  id,
  record f {
    return_type_id = renamed m f.return_type_id;
    argument_type_ids = map (renamed m) f.argument_type_ids;
  },
)

unfoldable pub purge_duplicate_types : (TypeSymbol → ℕ) → Usym → Usym
unfolding scan rename_type rename_function
purge_duplicate_types hash u =
    let old_to_new = (scan hash u.type_symbols nothing_found).old_to_new in
    record u {
      type_symbols =
          erase_if (λ id _. contains id old_to_new) (map (rename_type old_to_new) u.type_symbols);
      function_symbols = map (rename_function old_to_new) u.function_symbols;
    }
