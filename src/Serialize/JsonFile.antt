-- ===== src/Serialize/JsonFile.antt =====
-- The file that `USYM::Serialize` leaves with the JSON serializer.
use universal_symbols.Prelude.{
  ℕ, ◌≡◌, refl, true, false, not, [], ◌∷◌, ◌++◌, map, some, arith, Text, codes, text_eq,
  if◌then◌else◌,
}
use universal_symbols.Prelude.Map.{Map, contains, Distinct}
use universal_symbols.Usym.{TypeSymbol, FunctionSymbol, Usym}
use universal_symbols.Usym.Purge.{rename_function, purge_duplicate_types}
use universal_symbols.Usym.Purge.Survivors.{purge_duplicate_types-Distinct}
use universal_symbols.Usym.Verify.{verify_type_ids}
use universal_symbols.Serializers.{SerializeResult, Answer, Disk, store, serialize_to_file}
use universal_symbols.Serializers.Json
use universal_symbols.Serializers.Json.{JsonSerializer}
use universal_symbols.Serializers.Json.Contents.{usym_json, ShowsUsym, usym_json-Shows}
use universal_symbols.Serializers.Json.Names.{has_utf8_names, prints-usym_json}
use universal_symbols.Serializers.Library.{JsonLibrary, IsJsonLibrary}
use universal_symbols.Serialize.{json, Program, Outcome, serialize}

find-rename_function :
    (m : Map ℕ) (k : ℕ) (fs : Map FunctionSymbol)
    → contains k (map (rename_function m) fs) ≡ contains k fs
unfolding rename_function
find-rename_function m k [] = refl
find-rename_function m k ((j, f) ∷ fs) = ground (arith, find-rename_function m k fs)

Distinct-rename_function :
    (m : Map ℕ) (fs : Map FunctionSymbol) → Distinct fs → Distinct (map (rename_function m) fs)
unfolding rename_function
Distinct-rename_function m [] d = tt
Distinct-rename_function m ((j, f) ∷ fs) d =
    ground (arith, Distinct-rename_function m fs, find-rename_function m j fs)

purge-Distinct_functions :
    (hash : TypeSymbol → ℕ) (u : Usym)
    → Distinct u.function_symbols
    → Distinct (purge_duplicate_types hash u).function_symbols
unfolding purge_duplicate_types
purge-Distinct_functions hash u d = Distinct-rename_function _ u.function_symbols d

named : (output : Text) → text_eq (output ++ codes ".json") [] ≡ false
named [] = refl
named (c ∷ s) = refl

module _ (l : JsonLibrary) (laws : IsJsonLibrary l) (hash : TypeSymbol → ℕ) (grow : ℕ → ℕ) where
  -- With the JSON serializer, one entry for every identity, and a value of the serializer that takes
  -- keys and prints: if the file does not open, the files stay as they are. If it opens, it holds what
  -- is printed of a value that shows the purged symbols and no other, and the answer is ok, where all
  -- names are UTF-8; otherwise an exception of the library leaves the call, and the file holds what was
  -- put out until then. The symbols are purged in each case.
  pub serialize_shows :
      (output : Text) (p : Program l hash grow) (s : JsonSerializer l) (d : Disk)
      → p.serializer ≡ some (json s)
      → Distinct p.usym.type_symbols
      → Distinct p.usym.function_symbols
      → l.takes_keys s.j ≡ true
      → l.prints s.j ≡ true
      → (o : Outcome l hash grow) × (j : l.Json) × (serialize l hash grow output p d ≡ some o)
        × (o.result ≡ (
            if d.opens (output ++ codes ".json")
            then (if has_utf8_names (purge_duplicate_types hash p.usym)
                then Answer.returned SerializeResult.ok
                else Answer.thrown)
            else Answer.returned SerializeResult.file_creation_failed))
        × (o.disk ≡ (
            if d.opens (output ++ codes ".json")
            then store (output ++ codes ".json") (l.print j) d
            else d))
        × ShowsUsym l laws (purge_duplicate_types hash p.usym) j
        × (o.program.usym ≡ purge_duplicate_types hash p.usym)
  unfolding serialize Json.setup serialize_to_file Json.serializer
  serialize_shows output p s d owns distinct distinct_functions ok fresh =
      let u = purge_duplicate_types hash p.usym in
      let j = usym_json l laws u s.j in
      let apart = purge_duplicate_types-Distinct hash p.usym distinct in
      let apart_functions = purge-Distinct_functions hash p.usym distinct_functions in
      let printed : l.prints j ≡ has_utf8_names u =
        prints-usym_json l laws u s.j ok apart apart_functions fresh in
      (
        record {
          program = record {
            usym = u;
            serializer = some (
                json (record { target_file_name = output ++ codes ".json"; usym = some u; j = j }));
          };
          disk =
              if d.opens (output ++ codes ".json")
              then store (output ++ codes ".json") (l.print j) d
              else d;
          result =
              if d.opens (output ++ codes ".json")
              then (if l.prints j then Answer.returned SerializeResult.ok else Answer.thrown)
              else Answer.returned SerializeResult.file_creation_failed;
          critical = not (verify_type_ids u);
        },
        j,
        ground (arith, named output),
        rw printed refl,
        refl,
        usym_json-Shows l laws u s.j apart apart_functions ok,
        refl,
      )
