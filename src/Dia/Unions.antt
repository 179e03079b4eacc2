-- ===== src/Dia/Unions.antt =====
-- Which fields `SetAnonymousUnionData` marks, and how it numbers the unions.
use universal_symbols.Prelude.{
  ℕ, ◌≡◌, refl, ap, ◌∙◌, Bool, true, false, ◌||◌, ◌==◌, ==_iff, List, [], ◌∷◌, map, All, arith,
  Bool-cases, inl, inr,
}
use universal_symbols.Usym.{FieldSymbol}
use universal_symbols.Dia.Names.{seam, mark_unions, mark_fields}

-- For each field, whether it has the offset of the field before it or of the one behind it.
unfoldable pub overlaps : Bool → ℕ → List ℕ → List Bool
overlaps before offset [] = before ∷ []
overlaps before offset (next ∷ offsets) =
    (before || (offset == next)) ∷ overlaps (offset == next) next offsets

unfoldable pub overlapping : List ℕ → List Bool
unfolding overlaps
overlapping [] = []
overlapping (offset ∷ offsets) = overlaps false offset offsets

abbrev pub offset_of : FieldSymbol → ℕ
offset_of f = f.offset

abbrev pub is_marked : FieldSymbol → Bool
is_marked f = f.is_anonymous_union

abbrev pub unmarked : FieldSymbol → FieldSymbol
unmarked f = record f { is_anonymous_union = false; union_id = 0 }

-- A field that was made, and that is not marked yet.
pub record IsFresh (f : FieldSymbol) : Type 0 where
  pub made : (f.id == 0) ≡ false
  pub plain : f.is_anonymous_union ≡ false

seam-unmarked :
    (u : ℕ) (last : Bool) (f g : FieldSymbol)
    → (unmarked (seam u last f g).current ≡ unmarked f)
      × (unmarked (seam u last f g).next ≡ unmarked g)
unfolding seam
seam-unmarked u last f g = elim (Bool-cases ((f.id == 0) || (g.id == 0))) [
  | inl skipped ↦ rw skipped (refl, refl)
  | inr both ↦ elim (Bool-cases (f.offset == g.offset)) [
    | inl same ↦ rw (both, same) (refl, refl)
    | inr apart ↦ rw (both, apart) (refl, refl)
  ]
]

seam_marked :
    (u : ℕ) (last : Bool) (f g : FieldSymbol)
    → (f.id == 0) ≡ false
    → IsFresh g
    → (is_marked (seam u last f g).current ≡ (f.is_anonymous_union || (f.offset == g.offset)))
      × (is_marked (seam u last f g).next ≡ (f.offset == g.offset))
unfolding seam
seam_marked u last f g made fresh =
    let both : ((f.id == 0) || (g.id == 0)) ≡ false = rw (made, fresh.made) refl in
    elim (Bool-cases (f.offset == g.offset)) [
      | inl same ↦ rw (both, same) (ground arith, refl)
      | inr apart ↦ rw (both, apart) (ground arith, fresh.plain)
    ]

mark_unions-overlaps :
    (fs : List FieldSymbol) (u : ℕ) (last : Bool) (f : FieldSymbol)
    → (f.id == 0) ≡ false
    → All IsFresh fs
    → map is_marked (mark_unions u last f fs)
      ≡ overlaps f.is_anonymous_union f.offset (map offset_of fs)
unfolding mark_unions overlaps
mark_unions-overlaps [] u last f made fresh = refl
mark_unions-overlaps (g ∷ fs) u last f made fresh =
    let s = seam u last f g in
    let (here, next) = seam_marked u last f g made fresh.0 in
    let same = (seam-unmarked u last f g).1 in
    let made1 : (s.next.id == 0) ≡ false = ap (λ x. x.id == 0) same ∙ fresh.0.made in
    let rest = mark_unions-overlaps fs s.union_id s.was_last_union s.next made1 fresh.1 in
    let rest1 : overlaps s.next.is_anonymous_union s.next.offset (map offset_of fs)
        ≡ overlaps (f.offset == g.offset) g.offset (map offset_of fs) =
      λ i. overlaps (next i) (offset_of (same i)) (map offset_of fs) in
    λ i. here i ∷ (rest ∙ rest1) i

mark_unions-unmarked :
    (fs : List FieldSymbol) (u : ℕ) (last : Bool) (f : FieldSymbol)
    → map unmarked (mark_unions u last f fs) ≡ map unmarked (f ∷ fs)
unfolding mark_unions
mark_unions-unmarked [] u last f = refl
mark_unions-unmarked (g ∷ fs) u last f =
    let s = seam u last f g in
    let (here, next) = seam-unmarked u last f g in
    let rest = mark_unions-unmarked fs s.union_id s.was_last_union s.next in
    λ i. here i ∷ (rest ∙ λ j. next j ∷ map unmarked fs) i

-- Among fields that were all made, `SetAnonymousUnionData` marks exactly those with the offset of a
-- neighbour as parts of an anonymous union, and changes nothing but the marks and the unions' numbers.
pub mark_fields-overlapping :
    (fs : List FieldSymbol)
    → All IsFresh fs
    → (map is_marked (mark_fields fs) ≡ overlapping (map offset_of fs))
      × (map unmarked (mark_fields fs) ≡ map unmarked fs)
unfolding mark_fields overlapping
mark_fields-overlapping [] fresh = (refl, refl)
mark_fields-overlapping (f ∷ fs) fresh = (
  mark_unions-overlaps fs 0 false f fresh.0.made fresh.1
      ∙ ap (λ b. overlaps b f.offset (map offset_of fs)) fresh.0.plain,
  mark_unions-unmarked fs 0 false f,
)

abbrev in_first : FieldSymbol → FieldSymbol
in_first f = record f { is_anonymous_union = true; union_id = 0 }

seam-same :
    (last : Bool) (f g : FieldSymbol)
    → (f.id == 0) ≡ false
    → (g.id == 0) ≡ false
    → f.offset ≡ g.offset
    → seam 0 last f g
      ≡ record { current = in_first f; next = in_first g; union_id = 0; was_last_union = true }
unfolding seam
seam-same last f g made made1 same =
    let equal : (f.offset == g.offset) ≡ true = (==_iff f.offset g.offset).1 same in
    rw (made, made1, equal) refl

seam-skipped :
    (last : Bool) (f g : FieldSymbol)
    → ((f.id == 0) || (g.id == 0)) ≡ true
    → seam 0 last f g ≡ record { current = f; next = g; union_id = 0; was_last_union = last }
unfolding seam
seam-skipped last f g skipped = rw skipped refl

-- Two pairs of fields of one offset each, with a field between them that could not be made: both
-- get 0 as the number of their union.
pub mark_fields_collide :
    (a b empty c d : FieldSymbol)
    → (a.id == 0) ≡ false
    → (b.id == 0) ≡ false
    → empty.id ≡ 0
    → (c.id == 0) ≡ false
    → (d.id == 0) ≡ false
    → a.offset ≡ b.offset
    → c.offset ≡ d.offset
    → map (λ f. f.union_id) (mark_fields (a ∷ b ∷ empty ∷ c ∷ d ∷ []))
      ≡ 0 ∷ 0 ∷ empty.union_id ∷ 0 ∷ 0 ∷ []
unfolding mark_fields mark_unions
mark_fields_collide a b empty c d a1 b1 e1 c1 d1 same same1 =
    let ab = seam-same false a b a1 b1 same in
    let skip_left : ((b.id == 0) || (empty.id == 0)) ≡ true = ground (arith, e1) in
    let skip_right : ((empty.id == 0) || (c.id == 0)) ≡ true = ground (arith, e1) in
    let be = seam-skipped true (in_first b) empty skip_left in
    let ec = seam-skipped true empty c skip_right in
    let cd = seam-same true c d c1 d1 same1 in rw (ab, be, ec, cd) refl
