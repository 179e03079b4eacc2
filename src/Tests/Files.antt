-- ===== src/Tests/Files.antt =====
-- `Serialize` on the sample, with both serializers.
use universal_symbols.Prelude.{
  ℕ, ◌≡◌, refl, true, false, List, [], ◌∷◌, ◌++◌, none, some, arith, length, codes, if◌then◌else◌,
}
use universal_symbols.Prelude.Map.{put, erase_if}
use universal_symbols.ReCore.Memory.{le_bytes}
use universal_symbols.ReCore.Writer.Steps.{c_string}
use universal_symbols.Usym.{TypeSymbol}
use universal_symbols.Usym.Hashing.{hash_type}
use universal_symbols.Usym.Purge.{purge_duplicate_types}
use universal_symbols.Serializers.{SerializerType, SerializeResult, Answer, Disk, store}
use universal_symbols.Serializers.Binary
use universal_symbols.Serializers.Json
use universal_symbols.Serializers.Json.Contents.{ShowsUsym}
use universal_symbols.Serializers.Json.Names.{has_utf8_names}
use universal_symbols.Serializers.Binary.Format.{
  usym_bytes, header_bytes, fields_bytes, types_bytes, ids_bytes, functions_bytes,
}
use universal_symbols.Serializers.Binary.Decode.{read_usym}
use universal_symbols.Serializers.Binary.RoundTrip.{by_own_ids, IsStorable}
use universal_symbols.Serialize.{Program, Outcome, serialize, set_serializer, binary, json}
use universal_symbols.Serialize.Files.{serialize_reads_back, serialize_twice}
use universal_symbols.Serialize.JsonFile.{serialize_shows}
use universal_symbols.Serialize.Lifecycle.{start, later, chosen, IsPurged, Reach-serialize}
use universal_symbols.Usym.Verify.{verify_type_ids}
use universal_symbols.Tests.Samples.{hasher, grow, grow_bound, program, program-Distinct}
use universal_symbols.Tests.JsonModel.{library, library-laws}

abbrev hash : TypeSymbol → ℕ
hash = hash_type hasher

abbrev empty_disk : Disk
empty_disk = record { opens = λ n. true; files = λ n. none }

abbrev with_binary : Program library hash grow
with_binary = record { usym = program; serializer = some (binary Binary.new) }

abbrev with_json : Program library hash grow
with_json = record { usym = program; serializer = some (json (Json.new library)) }

program-IsStorable : IsStorable program
program-IsStorable = omega arith

purged_length : length (usym_bytes (purge_duplicate_types hash program)) ≡ 169
unfolding usym_bytes header_bytes types_bytes functions_bytes fields_bytes ids_bytes le_bytes
    c_string purge_duplicate_types hash_type put erase_if
purged_length = refl

serialize_reads_back_example :
    (o : Outcome library hash grow) × (bytes : List ℕ) × (serialize library hash grow
        (codes "a")
        with_binary
        empty_disk
      ≡ some o)
    × (o.result ≡ Answer.returned SerializeResult.ok)
    × (o.disk.files (codes "a.usym") ≡ some bytes)
    × (read_usym bytes ≡ some (by_own_ids (purge_duplicate_types hash program), 0 ∷ []))
serialize_reads_back_example =
    serialize_reads_back library hash grow grow_bound (codes "a") with_binary empty_disk refl refl
      program-Distinct program-IsStorable (omega (arith, purged_length))

twice_purged_length :
    length (usym_bytes (purge_duplicate_types hash (purge_duplicate_types hash program))) ≡ 169
unfolding usym_bytes header_bytes types_bytes functions_bytes fields_bytes ids_bytes le_bytes
    c_string purge_duplicate_types hash_type put erase_if
twice_purged_length = refl

serialize_twice_example :
    (first : Outcome library hash grow) × (second : Outcome library hash grow) × (serialize library
        hash grow
        (codes "a")
        with_binary
        empty_disk
      ≡ some first)
    × (serialize library hash grow (codes "a") first.program first.disk ≡ some second)
    × (second.disk.files (codes "a.usym")
        ≡ some (
            (usym_bytes (purge_duplicate_types hash program)
              ++ usym_bytes (purge_duplicate_types hash (purge_duplicate_types hash program)))
            ++ (0 ∷ [])))
serialize_twice_example =
    serialize_twice library hash grow grow_bound (codes "a") with_binary empty_disk refl refl
      (omega (arith, purged_length, twice_purged_length))

serialize_shows_example :
    (o : Outcome library hash grow) × (j : library.Json) × (serialize library hash grow
        (codes "a")
        with_json
        empty_disk
      ≡ some o)
    × (o.result ≡ (
        if true
        then (if has_utf8_names (purge_duplicate_types hash program)
            then Answer.returned SerializeResult.ok
            else Answer.thrown)
        else Answer.returned SerializeResult.file_creation_failed))
    × (o.disk ≡ (if true then store (codes "a.json") (library.print j) empty_disk else empty_disk))
    × ShowsUsym library library-laws (purge_duplicate_types hash program) j
    × (o.program.usym ≡ purge_duplicate_types hash program)
unfolding Json.new library
serialize_shows_example =
    serialize_shows library library-laws hash grow (codes "a") with_json (Json.new library)
      empty_disk refl program-Distinct (refl, tt) library-laws.takes_keys-start
      library-laws.prints-start

-- After a binary serializer was chosen.
Reach-serialize_example :
    IsPurged library hash grow program serialize_reads_back_example.0.program.usym
    × (serialize_reads_back_example.0.critical ≡ false)
unfolding set_serializer verify_type_ids
Reach-serialize_example =
    Reach-serialize library hash grow program empty_disk empty_disk with_binary (codes "a")
      serialize_reads_back_example.0 program-Distinct refl
      (later (start refl) (chosen SerializerType.binary refl refl)) serialize_reads_back_example.2
