-- ===== src/Tests/Fields.antt =====
-- Fields with and without a common offset.
use universal_symbols.Prelude.{ℕ, ◌≡◌, refl, ◌∷◌, [], map}
use universal_symbols.Usym.{FieldSymbol, new_field}
use universal_symbols.Dia.Names.{mark_fields}
use universal_symbols.Dia.Unions.{
  offset_of, is_marked, unmarked, overlapping, mark_fields-overlapping, mark_fields_collide,
}

abbrev field_at : ℕ → ℕ → FieldSymbol
field_at id offset = record new_field { id = id; offset = offset }

mark_fields-overlapping_example :
    (map is_marked (mark_fields (field_at 1 0 ∷ field_at 2 4 ∷ field_at 3 4 ∷ []))
      ≡ overlapping (map offset_of (field_at 1 0 ∷ field_at 2 4 ∷ field_at 3 4 ∷ [])))
    × (map unmarked (mark_fields (field_at 1 0 ∷ field_at 2 4 ∷ field_at 3 4 ∷ []))
        ≡ map unmarked (field_at 1 0 ∷ field_at 2 4 ∷ field_at 3 4 ∷ []))
mark_fields-overlapping_example =
    mark_fields-overlapping (field_at 1 0 ∷ field_at 2 4 ∷ field_at 3 4 ∷ []) (
      record { made = refl; plain = refl },
      (record { made = refl; plain = refl }, (record { made = refl; plain = refl }, tt)),
    )

mark_fields_collide_example :
    map
      (λ f. f.union_id)
      (mark_fields (field_at 1 0 ∷ field_at 2 0 ∷ new_field ∷ field_at 4 8 ∷ field_at 5 8 ∷ []))
    ≡ 0 ∷ 0 ∷ 0 ∷ 0 ∷ 0 ∷ []
mark_fields_collide_example =
    mark_fields_collide (field_at 1 0) (field_at 2 0) new_field (field_at 4 8) (field_at 5 8) refl
      refl refl refl refl refl refl
