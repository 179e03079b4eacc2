-- ===== src/Usym/ByName.antt =====
-- `GetSymbolByName` and the two functions over it (Components/UniversalSymbolsFormat/USYM.cpp).
pub mod First
use universal_symbols.Prelude.{[], ◌∷◌, Text, text_eq, if◌then◌else◌}
use universal_symbols.Prelude.Map.{Map}
use universal_symbols.Usym.{TypeSymbol, FunctionSymbol, Usym, new_type, new_function}

-- The first symbol of that name, or the static default `_`.
unfoldable pub get_symbol_by_name : {T : Type 0} → (T → Text) → T → Text → Map T → T
get_symbol_by_name name default sought [] = default
get_symbol_by_name name default sought ((id, s) ∷ m) =
    if text_eq (name s) sought then s else get_symbol_by_name name default sought m

unfoldable pub get_type_symbol_by_name : Text → Usym → TypeSymbol
unfolding get_symbol_by_name
get_type_symbol_by_name sought u =
    get_symbol_by_name (λ (t : TypeSymbol). t.name) new_type sought u.type_symbols

unfoldable pub get_function_symbol_by_name : Text → Usym → FunctionSymbol
unfolding get_symbol_by_name
get_function_symbol_by_name sought u =
    get_symbol_by_name (λ (f : FunctionSymbol). f.name) new_function sought u.function_symbols
