-- ===== src/Dia/Members.antt =====
-- The fields of a structure: each refers to a type with an entry.
use universal_symbols.Prelude.{
  ℕ, ◌≡◌, refl, Bool, true, false, ◌||◌, ◌==◌, ◌^◌, ◌<◌, ltb, List, [], ◌∷◌, Option, none, some,
  arith, inl, inr, Bool-cases, Option-cases, get_or, if◌then◌else◌,
}
use universal_symbols.Prelude.Map.{Map, contains}
use universal_symbols.Usym.{FieldSymbol, TypeSymbol, new_field, new_type}
use universal_symbols.Usym.Verify.{resolves, verify_fields}
use universal_symbols.Dia.{Dia, Handle, SymTag}
use universal_symbols.Dia.Names.{seam, mark_unions, mark_fields, set_anonymous_union_data}
use universal_symbols.Dia.Run.{World, types}
use universal_symbols.Dia.Create.{
  Make, field_head, create_field_symbol, create_fields, create_members_for_symbol, has_unions,
  with_members,
}
use universal_symbols.Dia.Growth.{Sub, Sub-trans, Closed, RefsIn, resolves-Sub}
use universal_symbols.Dia.Documented.{Ends, Ends-done, Ends-then_do}

unfoldable pub KnownIn : Dia → Handle → Map TypeSymbol → Type 0
KnownIn dia h m = (id : ℕ) → dia.sym_index_id h ≡ some id → contains id m ≡ true

pub KnownIn-id :
    (dia : Dia) (h : Handle) (m : Map TypeSymbol) (id : ℕ)
    → dia.sym_index_id h ≡ some id
    → contains id m ≡ true
    → KnownIn dia h m
unfolding KnownIn
KnownIn-id dia h m id e there id1 e1 = ground (arith, e, e1, there)

pub KnownIn-none :
    (dia : Dia) (h : Handle) (m : Map TypeSymbol) → dia.sym_index_id h ≡ none → KnownIn dia h m
unfolding KnownIn
KnownIn-none dia h m e id e1 = cc

abbrev pub RefIn : Map TypeSymbol → Option FieldSymbol → Type 0
RefIn m f = resolves m (get_or f new_field).underlying_type_id ≡ true

abbrev pub FieldsIn : Map TypeSymbol → List FieldSymbol → Type 0
FieldsIn m fs = verify_fields m fs ≡ true

-- Marking unions leaves the references as they are.
seam_refs :
    (u : ℕ) (last : Bool) (f g : FieldSymbol)
    → ((seam u last f g).current.underlying_type_id ≡ f.underlying_type_id)
      × ((seam u last f g).next.underlying_type_id ≡ g.underlying_type_id)
unfolding seam
seam_refs u last f g = elim (Bool-cases ((f.id == 0) || (g.id == 0))) [
  | inl skipped ↦ rw skipped (refl, refl)
  | inr both ↦ elim (Bool-cases (f.offset == g.offset)) [
    | inl same ↦ rw (both, same) (refl, refl)
    | inr apart ↦ rw (both, apart) (refl, refl)
  ]
]

mark_unions-verify_fields :
    (m : Map TypeSymbol) (fs : List FieldSymbol) (u : ℕ) (last : Bool) (f : FieldSymbol)
    → verify_fields m (f ∷ fs) ≡ true
    → verify_fields m (mark_unions u last f fs) ≡ true
unfolding verify_fields mark_unions
mark_unions-verify_fields m [] u last f h = h
mark_unions-verify_fields m (g ∷ fs) u last f h =
    let s = seam u last f g in
    let (same, same1) = seam_refs u last f g in
    let here : resolves m s.current.underlying_type_id ≡ true = rw same (ground (arith, h)) in
    let next : verify_fields m (s.next ∷ fs) ≡ true = rw same1 (ground (arith, h)) in
    let rest = mark_unions-verify_fields m fs s.union_id s.was_last_union s.next next in
    rw (here, rest) refl

mark_fields-verify_fields :
    (m : Map TypeSymbol) (fs : List FieldSymbol)
    → verify_fields m fs ≡ true
    → verify_fields m (mark_fields fs) ≡ true
unfolding mark_fields
mark_fields-verify_fields m [] h = h
mark_fields-verify_fields m (f ∷ fs) h = mark_unions-verify_fields m fs 0 false f h

module _ (dia : Dia) (make : Make) (m0 : Map TypeSymbol)
    (makes : (w : World) (type : Handle) (id : ℕ)
      → Sub m0 (types w)
      → Closed (types w)
      → dia.sym_index_id type ≡ some id
      → contains id (types w) ≡ false
      → Ends w (make (some type) w) (λ m created. KnownIn dia type m)) where
  head_type :
      (h type : Handle) (f : FieldSymbol)
      → field_head dia h ≡ some (type, f)
      → dia.sym_index_id type ≡ some f.underlying_type_id
  unfolding field_head
  head_type h type f e = ground (arith, e)

  create_field_symbol-Ends :
      (h : Handle) (w : World)
      → Sub m0 (types w)
      → Closed (types w)
      → Ends w (create_field_symbol dia make h w) RefIn
  unfolding create_field_symbol resolves KnownIn
  create_field_symbol-Ends h w sub c = elim (Option-cases (field_head dia h)) [
    | inl e ↦ rw (create_field_symbol, e) (Ends-done w none RefIn c refl)
    | inr (head, e) ↦
        let f = head.1 in
        elim (Bool-cases (contains f.underlying_type_id (types w))) [
          | inl there ↦
              rw (create_field_symbol, e, there) (Ends-done w (some f) RefIn c (ground arith))
          | inr out ↦
              let id = head_type h head.0 f e in
              rw (create_field_symbol, e, out)
                (Ends-then_do w (make (some head.0) w) _ (λ m created. KnownIn dia head.0 m) RefIn
                  (makes w head.0 f.underlying_type_id sub c id out)
                  (λ w1 created s c1 known.
                    Ends-done w1 (if created then some f else none) RefIn c1 (
                      let at = known f.underlying_type_id id in
                      elim (Bool-cases created) [
                        | inl positive ↦ rw positive (ground (arith, at))
                        | inr negative ↦ rw negative refl
                      ])))
        ]
  ]

  create_fields-Ends :
      (hs : List Handle) (w : World)
      → Sub m0 (types w)
      → Closed (types w)
      → Ends w (create_fields dia make hs w) FieldsIn
  unfolding create_fields verify_fields
  create_fields-Ends [] w sub c = Ends-done w [] FieldsIn c refl
  create_fields-Ends (h ∷ hs) w sub c =
      Ends-then_do w (create_field_symbol dia make h w) _ RefIn FieldsIn
        (create_field_symbol-Ends h w sub c)
        (λ w1 f s c1 ok.
          Ends-then_do w1 (create_fields dia make hs w1) _ FieldsIn FieldsIn
            (create_fields-Ends hs w1 (Sub-trans m0 (types w) (types w1) sub s) c1)
            (λ w2 fs s1 c2 oks.
              let ok1 =
                resolves-Sub (types w1) (types w2) s1 (get_or f new_field).underlying_type_id ok in
              Ends-done w2 (get_or f new_field ∷ fs) FieldsIn c2 (ground (arith, ok1, oks))))

  create_members_for_symbol-Ends :
      ((h : Handle) (count : ℕ) (hs : List Handle)
        → dia.find_children h SymTag.datum ≡ some (count, hs)
        → count < 2 ^ 31)
      → (h : Handle) (t : TypeSymbol) (w : World) → Sub m0 (types w)
      → Closed (types w)
      → RefsIn (types w) t
      → Ends w (create_members_for_symbol dia make h t w) RefsIn
  unfolding create_members_for_symbol set_anonymous_union_data
  create_members_for_symbol-Ends counted h t w sub c refs =
      elim (Option-cases (dia.find_children h SymTag.datum)) [
        | inl e ↦ rw (create_members_for_symbol, e) (Ends-done w t RefsIn c refs)
        | inr (found, e) ↦
            let small : ltb found.0 (2 ^ 31) ≡ true = ground (arith, counted h found.0 found.1 e) in
            rw (create_members_for_symbol, e, small)
              (Ends-then_do w (create_fields dia make found.1 w) _ FieldsIn RefsIn
                (create_fields-Ends found.1 w sub c)
                (λ w1 fs s c1 oks.
                  let source = resolves-Sub (types w) (types w1) s t.typedef_source refs.source in
                  Ends-done w1 _ RefsIn c1 (elim (Bool-cases (has_unions dia make t.type)) [
                    | inl positive ↦ rw positive (record {
                      source = source;
                      fields = mark_fields-verify_fields (types w1) fs oks;
                    })
                    | inr negative ↦ rw negative (record { source = source; fields = oks })
                  ])))
      ]

  pub with_members-Ends :
      ((h : Handle) (count : ℕ) (hs : List Handle)
        → dia.find_children h SymTag.datum ≡ some (count, hs)
        → count < 2 ^ 31)
      → (h : Handle) (t : Option TypeSymbol) (w : World) → Sub m0 (types w)
      → Closed (types w)
      → ((m : Map TypeSymbol) → RefsIn m (get_or t new_type))
      → Ends w (with_members dia make h t w) (λ m t1. RefsIn m (get_or t1 new_type))
  unfolding with_members
  with_members-Ends counted h none w sub c refs = Ends-done w none _ c (refs (types w))
  with_members-Ends counted h (some t) w sub c refs =
      Ends-then_do w (create_members_for_symbol dia make h t w) _ RefsIn _
        (create_members_for_symbol-Ends counted h t w sub c (refs (types w)))
        (λ w1 t1 s c1 ok. Ends-done w1 (some t1) (λ m t1. RefsIn m (get_or t1 new_type)) c1 ok)
