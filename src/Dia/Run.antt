-- ===== src/Dia/Run.antt =====
-- Runs over the symbols built so far: a run ends, throws, reads through a null pointer, or has no fuel left.
use universal_symbols.Prelude.{ℕ, if◌then◌else◌}
use universal_symbols.Prelude.Map.{Map, contains, put}
use universal_symbols.Usym.{TypeSymbol, Usym, new_type}

-- `usym`, and the static counter of `GeneratePointerName`.
pub record World : Type 0 where
  pub usym : Usym
  pub counter : ℕ

pub data Outcome (A : Type 0) : Type 0 where
  done : World → A → Outcome A
  -- std::exception
  thrown : World → Outcome A
  null_access : Outcome A
  out_of_fuel : Outcome A

abbrev pub Run : Type 0 → Type 0
Run A = World → Outcome A

infixl 5 ◌then_do◌
abbrev pub ◌then_do◌ : {A B : Type 0} → Outcome A → (World → A → Outcome B) → Outcome B
Outcome.done w a then_do f = f w a
Outcome.thrown w then_do f = Outcome.thrown w
Outcome.null_access then_do f = Outcome.null_access
Outcome.out_of_fuel then_do f = Outcome.out_of_fuel

abbrev pub types : World → Map TypeSymbol
types w = w.usym.type_symbols

abbrev pub with_types : Map TypeSymbol → World → World
with_types m w = record w { usym = record w.usym { type_symbols = m } }

-- `aUsym.typeSymbols[id]` makes an empty entry where there is none.
unfoldable pub touch : ℕ → Map TypeSymbol → Map TypeSymbol
touch id m = if contains id m then m else put id new_type m
