-- ===== src/PdbToUni.antt =====
-- PdbToUni/main.cpp: from the path of a PDB to a JSON file. Logging is left out.
pub mod Written
use universal_symbols.Prelude.{
  ℕ, List, [], ◌∷◌, Option, none, some, ◌==◌, if◌then◌else◌, get_or, Text,
}
use universal_symbols.Usym.{TypeSymbol, Usym}
use universal_symbols.Serializers.{SerializerType, Answer, Disk}
use universal_symbols.Serializers.Library.{JsonLibrary}
use universal_symbols.Serialize
use universal_symbols.Serialize.{set_serializer, serialize, SetResult}
use universal_symbols.Dia.Run
use universal_symbols.Dia.Run.{World}
use universal_symbols.Dia.Build.{Session, create_usym_from_file}

-- What stands before the last `c`.
unfoldable pub before_last : ℕ → Text → Option Text
before_last c [] = none
before_last c (x ∷ s) = elim (before_last c s) [
  | some front ↦ some (x ∷ front)
  | none ↦ if x == c then some [] else none
]

-- `target.substr(0, target.find_last_of("."))`: all of it where there is no dot.
unfoldable pub output_of : Text → Text
unfolding before_last
output_of target = get_or (before_last 46 target) target

-- How the process ends: with a code, with an exception that nothing catches, or not in a defined way.
-- After such an exception it is open whether the stack is unwound, and so what reached an open file.
pub data Ending : Type 0 where
  exited : ℕ → Disk → Ending
  terminated : Ending
  undefined : Ending
  out_of_fuel : Ending

module _ (l : JsonLibrary) (hash : TypeSymbol → ℕ) (grow : ℕ → ℕ) where
  -- The result of `Serialize` is not looked at, and its exceptions are not caught.
  unfoldable pub write_json : Text → Usym → Disk → Ending
  unfolding set_serializer serialize output_of
  write_json target u d =
      elim (set_serializer l hash grow SerializerType.json
        (record { usym = u; serializer = none })) [
          | SetResult.thrown message ↦ Ending.terminated
          | SetResult.done p ↦ elim (serialize l hash grow (output_of target) p d) [
            | none ↦ Ending.undefined
            | some o ↦ elim o.result [
              | Answer.returned r ↦ Ending.exited 0 o.disk
              | Answer.thrown ↦ Ending.terminated
            ]
          ]
        ]

  -- `fuel` is that of `CreateTypeSymbol`, and `open_pdb` what becomes of opening a file.
  unfoldable pub main : ℕ → (Text → Session) → List Text → World → Disk → Ending
  unfolding create_usym_from_file write_json
  main fuel open_pdb (program ∷ target ∷ []) w d =
      elim (create_usym_from_file fuel (open_pdb target) w) [
        | Run.Outcome.done w1 none ↦ Ending.exited 1 d
        | Run.Outcome.done w1 (some u) ↦ write_json target u d
        | Run.Outcome.thrown w1 ↦ Ending.terminated
        | Run.Outcome.null_access ↦ Ending.undefined
        | Run.Outcome.out_of_fuel ↦ Ending.out_of_fuel
      ]
  main fuel open_pdb arguments w d = Ending.exited 1 d
