-- ===== src/Tests/Programs.antt =====
-- PdbToUni on the small PDB.
use universal_symbols.Prelude.{
  ℕ, ◌≡◌, refl, true, [], ◌∷◌, ◌++◌, none, some, inl, if◌then◌else◌, Text, codes, arith,
}
use universal_symbols.Usym.{TypeSymbol}
use universal_symbols.Usym.Hashing.{hash_type}
use universal_symbols.Usym.Purge.{purge_duplicate_types}
use universal_symbols.Usym.Verify.{verify_type_ids}
use universal_symbols.Serializers.{Disk, store}
use universal_symbols.Serializers.Json.Contents.{ShowsUsym}
use universal_symbols.Serializers.Json.Names.{has_utf8_names}
use universal_symbols.Dia.Run.{World, Outcome}
use universal_symbols.Dia.Build.{Session, create_usym_from_file}
use universal_symbols.PdbToUni.{output_of, Ending, main}
use universal_symbols.PdbToUni.Written.{output_of_lem, main_writes}
use universal_symbols.Tests.Samples.{hasher, grow}
use universal_symbols.Tests.JsonModel.{library, library-laws}
use universal_symbols.Tests.Pdb.{pdb, handles, rank_of, start, pdb-IsDia}

output_of_lem_example :
    (output_of (codes "a.b" ++ (46 ∷ codes "/pdb")) ≡ codes "a.b")
    × (output_of (codes "/pdb") ≡ codes "/pdb")
output_of_lem_example =
    output_of_lem (codes "a.b") (codes "/pdb") (refl, (refl, (refl, (refl, tt))))

abbrev hash : TypeSymbol → ℕ
hash = hash_type hasher

abbrev no_files : Disk
no_files = record { opens = λ n. true; files = λ n. none }

abbrev open_pdb : Text → Session
open_pdb target = Session.opened pdb 0

main_writes_example :
    (w1 : World) × (j : library.Json) × (create_usym_from_file 16 (open_pdb (codes "a.pdb")) start
      ≡ Outcome.done w1 (some w1.usym))
    × (main library hash grow 16 open_pdb (codes "tool" ∷ codes "a.pdb" ∷ []) start no_files ≡ (
        if no_files.opens (codes "a.json")
        then (if has_utf8_names (purge_duplicate_types hash w1.usym)
            then Ending.exited 0 (store (codes "a.json") (library.print j) no_files)
            else Ending.terminated)
        else Ending.exited 0 no_files))
    × ShowsUsym library library-laws (purge_duplicate_types hash w1.usym) j
    × (verify_type_ids (purge_duplicate_types hash w1.usym) ≡ true)
main_writes_example =
    main_writes library library-laws hash grow pdb 0 handles 1 rank_of pdb-IsDia 16 (omega arith)
      open_pdb (codes "tool") (codes "a.pdb") (codes "a") refl
      (inl (codes "pdb", refl, (refl, (refl, (refl, tt))))) start no_files
