-- ===== src/Usym/Verify.antt =====
-- `USYM::VerifyTypeIds` (Components/UniversalSymbolsFormat/USYM.cpp). The warnings it logs are left
-- out; the loops go on after a miss, so the result is a conjunction.
pub mod Purged
use universal_symbols.Prelude.{ℕ, Bool, true, false, not, ◌&&◌, ◌||◌, List, [], ◌∷◌, ◌==◌}
use universal_symbols.Prelude.Map.{Map, contains}
use universal_symbols.Usym.{FieldSymbol, TypeSymbol, FunctionSymbol, Usym}

module _ (types : Map TypeSymbol) where
  -- `id != 0 && typeSymbols.find(id) == typeSymbols.end()` is a miss.
  unfoldable pub resolves : ℕ → Bool
  resolves id = (id == 0) || contains id types

  unfoldable pub verify_arguments : List ℕ → Bool
  unfolding resolves
  verify_arguments [] = true
  verify_arguments (id ∷ ids) = resolves id && verify_arguments ids

  unfoldable pub verify_functions : Map FunctionSymbol → Bool
  unfolding verify_arguments
  verify_functions [] = true
  verify_functions ((id, f) ∷ m) =
      resolves f.return_type_id && (verify_arguments f.argument_type_ids && verify_functions m)

  unfoldable pub verify_fields : List FieldSymbol → Bool
  unfolding resolves
  verify_fields [] = true
  verify_fields (f ∷ fs) = resolves f.underlying_type_id && verify_fields fs

  unfoldable pub verify_types : Map TypeSymbol → Bool
  unfolding verify_fields
  verify_types [] = true
  verify_types ((id, t) ∷ m) =
      resolves t.typedef_source && (verify_fields t.fields && verify_types m)

unfoldable pub verify_type_ids : Usym → Bool
unfolding verify_functions verify_types
verify_type_ids u =
    verify_functions u.type_symbols u.function_symbols && verify_types u.type_symbols u.type_symbols
