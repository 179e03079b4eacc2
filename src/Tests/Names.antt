-- ===== src/Tests/Names.antt =====
-- A lookup in the small program.
use universal_symbols.Prelude.{◌≡◌, ◌⊎◌, All, Text, codes}
use universal_symbols.Usym.{TypeSymbol, new_type}
use universal_symbols.Usym.ByName.{get_symbol_by_name}
use universal_symbols.Usym.ByName.First.{IsOther, IsFirst, get_symbol_by_name_lem}
use universal_symbols.Tests.Samples.{program}

abbrev name_of : TypeSymbol → Text
name_of t = t.name

get_symbol_by_name_lem_example :
    (IsFirst name_of
      (codes "Counter")
      program.type_symbols
      (get_symbol_by_name name_of new_type (codes "Counter") program.type_symbols))
    ⊎ ((All (IsOther name_of (codes "Counter")) program.type_symbols)
        × (get_symbol_by_name name_of new_type (codes "Counter") program.type_symbols ≡ new_type))
get_symbol_by_name_lem_example =
    get_symbol_by_name_lem name_of new_type (codes "Counter") program.type_symbols
