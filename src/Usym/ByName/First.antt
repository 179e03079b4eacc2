-- ===== src/Usym/ByName/First.antt =====
-- Which symbol a lookup by name finds.
use universal_symbols.Prelude.{
  ℕ, ◌≡◌, refl, ◌⊎◌, inl, inr, true, false, [], ◌∷◌, ◌++◌, All, Text, text_eq, Bool-cases,
}
use universal_symbols.Prelude.Map.{Map}
use universal_symbols.Usym.ByName.{get_symbol_by_name}

module _ {T : Type 0} (name : T → Text) where
  abbrev pub IsOther : Text → ℕ × T → Type 0
  IsOther sought e = text_eq (name e.1) sought ≡ false

  -- The symbol stands in the map, has the name, and no symbol before it has.
  pub record IsFirst (sought : Text) (m : Map T) (s : T) : Type 0 where
    pub before : Map T
    pub id : ℕ
    pub behind : Map T
    pub split : m ≡ before ++ ((id, s) ∷ behind)
    pub others : All (IsOther sought) before
    pub named : text_eq (name s) sought ≡ true

-- A lookup by name gives the first symbol of that name in the order of the map, or, where no symbol
-- has the name, the default.
pub get_symbol_by_name_lem :
    {T : Type 0} (name : T → Text) (default : T) (sought : Text) (m : Map T)
    → (IsFirst name sought m (get_symbol_by_name name default sought m))
      ⊎ ((All (IsOther name sought) m) × (get_symbol_by_name name default sought m ≡ default))
unfolding get_symbol_by_name
get_symbol_by_name_lem name default sought [] = inr (tt, refl)
get_symbol_by_name_lem name default sought ((id, s) ∷ m) =
    elim (Bool-cases (text_eq (name s) sought)) [
      | inl named ↦ inl (
          rw named
            (record { before = []; id = id; behind = m; split = refl; others = tt; named = named }))
      | inr other ↦ elim (get_symbol_by_name_lem name default sought m) [
        | inl found ↦ inl (
            rw other (record {
              before = (id, s) ∷ found.before;
              id = found.id;
              behind = found.behind;
              split = λ i. (id, s) ∷ found.split i;
              others = (other, found.others);
              named = found.named;
            }))
        | inr missing ↦ inr ((other, missing.0), rw other missing.1)
      ]
    ]
