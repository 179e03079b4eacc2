-- ===== src/PdbToUni/Written.antt =====
-- What PdbToUni leaves on the disk, and under which name.
use universal_symbols.Prelude.{
  ℕ, ◌+◌, ◌*◌, ◌<◌, ◌≡◌, refl, ap, ◌∙◌, Bool, true, false, List, [], ◌∷◌, ◌++◌, none, some, All,
  ◌==◌, if◌then◌else◌, length, Text, codes, arith, ◌⊎◌, inl, inr,
}
use universal_symbols.Prelude.Map.{Distinct}
use universal_symbols.Usym.{TypeSymbol, Usym}
use universal_symbols.Usym.Purge.{purge_duplicate_types}
use universal_symbols.Usym.Verify.{verify_type_ids}
use universal_symbols.Usym.Verify.Purged.{verify_type_ids-purge_duplicate_types}
use universal_symbols.Serializers.{Answer, SerializeResult, Disk, store}
use universal_symbols.Serializers.Json
use universal_symbols.Serializers.Json.Contents.{ShowsUsym}
use universal_symbols.Serializers.Json.Names.{has_utf8_names}
use universal_symbols.Serializers.Library.{JsonLibrary, IsJsonLibrary}
use universal_symbols.Serialize
use universal_symbols.Serialize.{Program, serialize, set_serializer, json}
use universal_symbols.Serialize.JsonFile.{serialize_shows}
use universal_symbols.Dia.{Dia, Handle}
use universal_symbols.Dia.Run.{World, Outcome}
use universal_symbols.Dia.Build.{Session, create_usym_from_file}
use universal_symbols.Dia.Documented.{IsDia}
use universal_symbols.Dia.Verified.{create_usym_from_file-IsBuilt}
use universal_symbols.PdbToUni.{before_last, output_of, Ending, write_json, main}

before_last-none : (c : ℕ) (s : Text) → All (λ x. (x == c) ≡ false) s → before_last c s ≡ none
unfolding before_last
before_last-none c [] free = refl
before_last-none c (x ∷ s) free = rw (before_last-none c s free.1, free.0) refl

before_last-append :
    (c : ℕ) (front back : Text)
    → All (λ x. (x == c) ≡ false) back
    → before_last c (front ++ (c ∷ back)) ≡ some front
unfolding before_last
before_last-append c [] back free =
    let here : (c == c) ≡ true = ground arith in rw (before_last-none c back free, here) refl
before_last-append c (x ∷ front) back free = rw (before_last-append c front back free) refl

-- Where `back` has no dot: the name of the output for `front.back` is `front`, also if `back` has
-- slashes, and for `back` on its own it is all of it.
pub output_of_lem :
    (front back : Text)
    → All (λ x. (x == 46) ≡ false) back
    → (output_of (front ++ (46 ∷ back)) ≡ front) × (output_of back ≡ back)
unfolding output_of
output_of_lem front back free =
    (rw (before_last-append 46 front back free) refl, rw (before_last-none 46 back free) refl)

-- The base of a name stands before its last dot, or is all of a name without a dot.
abbrev pub IsBase : Text → Text → Type 0
IsBase target base =
    ((back : Text) × (target ≡ base ++ (46 ∷ back)) × All (λ x. (x == 46) ≡ false) back)
    ⊎ ((target ≡ base) × All (λ x. (x == 46) ≡ false) base)

output_of-IsBase : (target base : Text) → IsBase target base → output_of target ≡ base
output_of-IsBase target base (inl (back, e, free)) = rw e (output_of_lem base back free).0
output_of-IsBase target base (inr (e, free)) = rw e (output_of_lem [] base free).1

module _ (l : JsonLibrary) (laws : IsJsonLibrary l) (hash : TypeSymbol → ℕ) (grow : ℕ → ℕ) where
  outcome_ends :
      (x : Serialize.Outcome l hash grow) (opens named : Bool) (e f : Disk)
      → x.result ≡ (
          if opens
          then (if named then Answer.returned SerializeResult.ok else Answer.thrown)
          else Answer.returned SerializeResult.file_creation_failed)
      → x.disk ≡ (if opens then e else f)
      → elim x.result [
        | Answer.returned y ↦ Ending.exited 0 x.disk
        | Answer.thrown ↦ Ending.terminated
      ]
        ≡ (if opens
            then (if named then Ending.exited 0 e else Ending.terminated)
            else Ending.exited 0 f)
  outcome_ends x true true e f answer left = rw (answer, left) refl
  outcome_ends x true false e f answer left = rw answer refl
  outcome_ends x false named e f answer left = rw (answer, left) refl

  write_json_lem :
      (target base : Text) (u : Usym) (d : Disk)
      → IsBase target base
      → Distinct u.type_symbols
      → Distinct u.function_symbols
      → (j : l.Json) × (write_json l hash grow target u d ≡ (
          if d.opens (base ++ codes ".json")
          then (if has_utf8_names (purge_duplicate_types hash u)
              then Ending.exited 0 (store (base ++ codes ".json") (l.print j) d)
              else Ending.terminated)
          else Ending.exited 0 d))
        × ShowsUsym l laws (purge_duplicate_types hash u) j
  unfolding write_json set_serializer Json.new
  write_json_lem target base u d at distinct distinct_functions =
      let s = Json.new l in
      let p : Program l hash grow = record { usym = u; serializer = some (json s) } in
      let (o, j, ends, result, disk, shows, usym) =
        serialize_shows l laws hash grow base p s d refl distinct distinct_functions
          laws.takes_keys-start laws.prints-start in
      let ran : serialize l hash grow (output_of target) p d ≡ some o =
        rw (output_of-IsBase target base at) ends in
      (
        j,
        ap
              (λ r. elim r [
                | none ↦ Ending.undefined
                | some x ↦ elim x.result [
                  | Answer.returned y ↦ Ending.exited 0 x.disk
                  | Answer.thrown ↦ Ending.terminated
                ]
              ])
              ran
            ∙ outcome_ends o _ _ _ _ result disk,
        shows,
      )

  -- For a PDB that opens, where the debug interface behaves as documented and the fuel is enough for
  -- the symbols of the file with their typedefs, the program builds its symbols, and `VerifyTypeIds`
  -- accepts them after the purge. The output is named like the PDB, with `.json` in the place of the
  -- last dot and what follows it, or added where there is no dot. If the output does not open, the
  -- program exits with 0 and the files stay as they are. If it opens and all names of the purged symbols
  -- are UTF-8, the program exits with 0 and the output holds what is printed of a JSON value that shows
  -- the purged symbols and no other. If it opens and some name is not UTF-8, an exception that nothing
  -- catches ends the program.
  pub main_writes :
      (dia : Dia) (scope : Handle) (ids : List ℕ) (depth : ℕ) (rank : Handle → ℕ)
      → IsDia dia ids depth rank
      → (fuel : ℕ) → length ids * (depth + 1) + depth < fuel
      → (open_pdb : Text → Session) (program target base : Text)
      → open_pdb target ≡ Session.opened dia scope
      → IsBase target base
      → (w : World) (d : Disk)
      → (w1 : World) × (j : l.Json) × (create_usym_from_file fuel (open_pdb target) w
          ≡ Outcome.done w1 (some w1.usym))
        × (main l hash grow fuel open_pdb (program ∷ target ∷ []) w d ≡ (
            if d.opens (base ++ codes ".json")
            then (if has_utf8_names (purge_duplicate_types hash w1.usym)
                then Ending.exited 0 (store (base ++ codes ".json") (l.print j) d)
                else Ending.terminated)
            else Ending.exited 0 d))
        × ShowsUsym l laws (purge_duplicate_types hash w1.usym) j
        × (verify_type_ids (purge_duplicate_types hash w1.usym) ≡ true)
  unfolding main
  main_writes dia scope ids depth rank doc fuel enough open_pdb program target base opens at w d =
      let (w1, built) = create_usym_from_file-IsBuilt dia scope ids depth rank doc fuel enough w in
      let u = w1.usym in
      let (j, writes, shows) =
        write_json_lem target base u d at built.distinct built.distinct_functions in
      let ends : create_usym_from_file fuel (open_pdb target) w ≡ Outcome.done w1 (some u) =
        rw opens built.ends in
      (
        w1,
        j,
        ends,
        rw (main, ends) writes,
        shows,
        verify_type_ids-purge_duplicate_types hash u built.distinct built.verified,
      )
