-- ===== src/Tests/Purging.antt =====
-- `PurgeDuplicateTypes` and `VerifyTypeIds` on the sample.
use universal_symbols.Prelude.{ℕ, ◌≡◌, refl, true, false, [], ◌∷◌, none, some}
use universal_symbols.Prelude.Map.{find, contains, put, erase_if, Distinct}
use universal_symbols.Usym.{TypeSymbol, Usym}
use universal_symbols.Usym.Equality.{type_eq}
use universal_symbols.Usym.Hashing.{hash_type}
use universal_symbols.Usym.Purge.Settled.{purge_often, purge_often_lem}
use universal_symbols.Usym.Hashing.LookAlikes.{purge_look_alikes}
use universal_symbols.Usym.Purge.{renamed, rename_type, purge_duplicate_types}
use universal_symbols.Usym.Purge.Scan.{first_id}
use universal_symbols.Usym.Purge.Survivors.{
  replaced, find-purge_duplicate_types, renamed_target, kept-hash_injective,
}
use universal_symbols.Usym.Verify.{verify_type_ids}
use universal_symbols.Usym.Verify.Purged.{verify_type_ids-purge_duplicate_types}
use universal_symbols.Tests.Samples.{
  hasher, int32, counter_field, counter, first_counter, bump, program, program-Distinct,
  other_counter, two_counters,
}

abbrev hash : TypeSymbol → ℕ
hash = hash_type hasher

same_int32 : type_eq (int32 1) (int32 2) ≡ true
unfolding type_eq
same_int32 = refl

sample_verifies : verify_type_ids program ≡ true
unfolding verify_type_ids
sample_verifies = refl

second_is_purged : contains 2 (purge_duplicate_types hash program).type_symbols ≡ false
unfolding purge_duplicate_types hash_type put erase_if
second_is_purged = refl

return_type_moves :
    (purge_duplicate_types hash program).function_symbols
    ≡ (9, record bump { return_type_id = 1; argument_type_ids = 3 ∷ 1 ∷ [] }) ∷ []
unfolding purge_duplicate_types hash_type put erase_if
return_type_moves = refl

verify_type_ids-purge_duplicate_types_example :
    verify_type_ids (purge_duplicate_types hash program) ≡ true
verify_type_ids-purge_duplicate_types_example =
    verify_type_ids-purge_duplicate_types hash program program-Distinct sample_verifies

find-purge_duplicate_types_example :
    find 2 (purge_duplicate_types hash program).type_symbols
    ≡ elim (first_id hash (hash (int32 2)) ((1, int32 1) ∷ [])) [
      | none ↦ some (rename_type (replaced hash program.type_symbols) (2, int32 2)).1
      | some n ↦ none
    ]
find-purge_duplicate_types_example =
    find-purge_duplicate_types hash program ((1, int32 1) ∷ []) 2 (int32 2) ((3, counter) ∷ []) refl
      program-Distinct

renamed_target_example :
    (t' : TypeSymbol) × (find (renamed (replaced hash program.type_symbols) 2) program.type_symbols
      ≡ some t')
    × (hash t' ≡ hash (int32 2))
    × (find
          (renamed (replaced hash program.type_symbols) 2)
          (purge_duplicate_types hash program).type_symbols
        ≡ some
            (rename_type
              (replaced hash program.type_symbols)
              (renamed (replaced hash program.type_symbols) 2, t')).1)
renamed_target_example = renamed_target hash program 2 (int32 2) program-Distinct refl

kept_one : contains 1 (purge_duplicate_types hash program).type_symbols ≡ true
unfolding purge_duplicate_types hash_type put erase_if
kept_one = refl

kept-hash_injective_example : ◌≡◌ {A = ℕ} 1 1
kept-hash_injective_example =
    kept-hash_injective hash program 1 1 (int32 1) (int32 1) program-Distinct refl refl kept_one
      kept_one refl

-- `operator==` tells the two structures apart, and the purge keeps one of them.
counters_differ : type_eq counter other_counter ≡ false
unfolding type_eq
counters_differ = refl

purge_look_alikes_example :
    contains 4 (purge_duplicate_types (hash_type hasher) two_counters).type_symbols ≡ false
purge_look_alikes_example =
    purge_look_alikes hasher two_counters ((3, counter) ∷ []) [] 3 4 counter other_counter refl
      (refl, (refl, tt)) refl
      (record { name = refl; length = refl; field_count = refl; fields = refl })

-- A structure with a field of the second `int32_t`, and the same structure with one of the first: the
-- first purge makes them equal and keeps both, the second purge keeps one.
abbrev nested : Usym
nested = record program {
  type_symbols = (1, int32 1) ∷ (2, int32 2) ∷ (3, counter) ∷ (4, first_counter) ∷ [];
}

nested-Distinct : Distinct nested.type_symbols
nested-Distinct = (refl, (refl, (refl, (refl, tt))))

once : contains 4 (purge_duplicate_types hash nested).type_symbols ≡ true
unfolding purge_duplicate_types hash_type put erase_if
once = refl

twice :
    contains 4 (purge_duplicate_types hash (purge_duplicate_types hash nested)).type_symbols ≡ false
unfolding purge_duplicate_types hash_type put erase_if
twice = refl

purge_often_lem_example :
    (◌≡◌ {A = ℕ} 3 3)
    × (purge_duplicate_types hash (purge_often hash 4 nested) ≡ purge_often hash 4 nested)
unfolding purge_often purge_duplicate_types hash_type put erase_if
purge_often_lem_example =
    purge_often_lem hash nested 3 3
      (record counter { fields = record counter_field { underlying_type_id = 1 } ∷ [] })
      (record counter { fields = record counter_field { underlying_type_id = 1 } ∷ [] })
      nested-Distinct refl refl refl
