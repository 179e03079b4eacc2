-- ===== src/Dia/Termination.antt =====
-- `CreateTypeSymbol` ends: with enough fuel it reaches a result, whatever the types' references to
-- each other, and every reference that it leaves has an entry.
use universal_symbols.Prelude.{
  ℕ, zero, suc, ◌+◌, ◌*◌, ◌%◌, ◌^◌, ◌≤◌, ◌<◌, ◌≡◌, refl, ap, true, false, List, Option, none, some,
  arith, inl, inr, Bool-cases, Option-cases,
}
use universal_symbols.Prelude.Map.{contains, put}
use universal_symbols.Usym.{TypeSymbol}
use universal_symbols.Usym.Verify.{resolves, verify_fields}
use universal_symbols.Dia.{Dia, Handle, SymTag}
use universal_symbols.Dia.Run.{World, types, with_types, touch}
use universal_symbols.Dia.Create.{
  Make, create_pointer_type_symbol, udt_head, enum_head, create_udt_symbol, create_enum_symbol,
  create_typedef_symbol, is_function_type, typedef_head, create_symbol, store,
  create_type_symbol_step, create_type_symbol,
}
use universal_symbols.Dia.Growth.{
  Sub, Sub-refl, Sub-put, Sub-touch, contains-put, contains-touch, Closed, Closed-put, Closed-touch,
  RefsIn-new_type, missing,
}
use universal_symbols.Dia.Documented.{IsDia, Ends, Ends-done, Ends-then_do, Ends-weaken}
use universal_symbols.Dia.Members.{KnownIn, KnownIn-id, KnownIn-none, with_members-Ends}
use universal_symbols.Dia.Calls.{
  SymbolIn, cost, touched, base_type-RefsIn, array_type-RefsIn, udt_head-RefsIn, enum_head-RefsIn,
  typedef_of-RefsIn, Ends-grown, missing_type, typedef_type,
}

create_pointer_type_symbol-Ends :
    (dia : Dia) (h : Handle) (w : World)
    → Closed (types w)
    → Ends w (create_pointer_type_symbol dia h w) SymbolIn
unfolding create_pointer_type_symbol resolves verify_fields
create_pointer_type_symbol-Ends dia h w c = elim (Option-cases (dia.sym_index_id h)) [
  | inl e ↦
      rw (create_pointer_type_symbol, e) (Ends-done w none SymbolIn c (RefsIn-new_type (types w)))
  | inr (id, e) ↦
      rw (create_pointer_type_symbol, e)
        (Ends-grown w (record w { counter = (w.counter + 1) % 2 ^ 64 }) _ SymbolIn
          (Sub-refl (types w)) refl
          (Ends-done (record w { counter = (w.counter + 1) % 2 ^ 64 }) _ SymbolIn c
            (record { source = ground arith; fields = ground arith })))
]

-- The entry that the symbol has at the latest when it is stored.
store-Ends :
    (dia : Dia) (make : Make) (id : ℕ) (w : World) (t : Option TypeSymbol)
    → Closed (types w)
    → SymbolIn (types w) t
    → Ends w
        (store dia make id w t)
        (λ m created. contains id (types w) ≡ true → contains id m ≡ true)
unfolding store
store-Ends dia make id w none c refs = Ends-done w false _ c (λ there. there)
store-Ends dia make id w (some t) c refs = record {
  after = with_types (put id t (types w)) w;
  result = true;
  ends = refl;
  grows = Sub-put (types w) id t;
  closed = Closed-put (types w) id t c refs;
  same_functions = refl;
  holds = λ there. contains-put (types w) id t;
}

module _ (dia : Dia) (ids : List ℕ) (depth : ℕ) (rank : Handle → ℕ) (doc : IsDia dia ids depth rank)
    (make : Make) (fuel : ℕ)
    (promise : (h : Handle) (w : World)
      → Closed (types w)
      → cost dia ids depth rank h (types w) < fuel
      → Ends w (make (some h) w) (λ m created. KnownIn dia h m)) where
  module _ (h : Handle) (w : World) (c : Closed (types w))
      (enough : missing ids (types w) * (depth + 1) + rank h ≤ fuel) where
    create_typedef_symbol-Ends :
        dia.sym_tag h ≡ some SymTag.typedef → Ends w (create_typedef_symbol dia make h w) SymbolIn
    unfolding create_typedef_symbol typedef_head resolves verify_fields
    create_typedef_symbol-Ends tag = elim (Option-cases (dia.sym_index_id h)) [
      | inl e ↦
          rw (create_typedef_symbol, e) (Ends-done w none SymbolIn c (RefsIn-new_type (types w)))
      | inr (id, e) ↦ elim (Option-cases (dia.type h)) [
        | inl e1 ↦
            rw (create_typedef_symbol, e, e1)
              (Ends-done w none SymbolIn c (RefsIn-new_type (types w)))
        | inr (none, e1) ↦ absurd (doc.typed h e1)
        | inr (some type, e1) ↦ elim (Bool-cases (is_function_type dia make (dia.sym_tag type))) [
          | inl function ↦
              rw (create_typedef_symbol, e, e1, function)
                (Ends-done w (some _) SymbolIn c (record { source = refl; fields = refl }))
          | inr other ↦
              let called =
                typedef_type dia ids depth rank doc make fuel promise h (types w) enough w type
                  (Sub-refl (types w)) c (doc.typedef_rank h type tag e1) in
              rw (create_typedef_symbol, e, e1, other)
                (Ends-then_do w (make (some type) w) _ (λ m created. KnownIn dia type m) SymbolIn
                  called
                  (λ w1 created s c1 known. Ends-done w1 _ SymbolIn c1 (
                    typedef_of-RefsIn dia (types w1) make type (typedef_head dia make id h) known
                      refl refl)))
        ]
      ]
    ]

    create_symbol-Ends :
        (tag : SymTag) → dia.sym_tag h ≡ some tag → Ends w (create_symbol dia make tag h w) SymbolIn
    unfolding create_symbol create_udt_symbol create_enum_symbol
    create_symbol-Ends SymTag.base_type e =
        Ends-done w _ SymbolIn c (base_type-RefsIn dia (types w) h)
    create_symbol-Ends SymTag.udt e =
        with_members-Ends dia make (types w)
          (missing_type dia ids depth rank doc make fuel promise h (types w) enough) doc.counted h
          (udt_head dia make h) w (Sub-refl (types w)) c (λ m. udt_head-RefsIn dia m make h)
    create_symbol-Ends SymTag.enum e =
        with_members-Ends dia make (types w)
          (missing_type dia ids depth rank doc make fuel promise h (types w) enough) doc.counted h
          (enum_head dia make h) w (Sub-refl (types w)) c (λ m. enum_head-RefsIn dia m make h)
    create_symbol-Ends SymTag.pointer_type e = create_pointer_type_symbol-Ends dia h w c
    create_symbol-Ends SymTag.typedef e = create_typedef_symbol-Ends e
    create_symbol-Ends SymTag.array_type e =
        Ends-done w _ SymbolIn c (array_type-RefsIn dia (types w) h)
    create_symbol-Ends SymTag.function e = Ends-done w none SymbolIn c (RefsIn-new_type (types w))
    create_symbol-Ends SymTag.datum e = Ends-done w none SymbolIn c (RefsIn-new_type (types w))
    create_symbol-Ends SymTag.function_type e =
        Ends-done w none SymbolIn c (RefsIn-new_type (types w))
    create_symbol-Ends SymTag.function_arg_type e =
        Ends-done w none SymbolIn c (RefsIn-new_type (types w))
    create_symbol-Ends SymTag.other e = Ends-done w none SymbolIn c (RefsIn-new_type (types w))

  create_type_symbol_step-Ends :
      (h : Handle) (w : World)
      → Closed (types w)
      → cost dia ids depth rank h (types w) < suc fuel
      → Ends w (create_type_symbol_step dia make (some h) w) (λ m created. KnownIn dia h m)
  unfolding create_type_symbol_step cost touched Sub
  create_type_symbol_step-Ends h w c enough = elim (Option-cases (dia.sym_tag h)) [
    | inl e ↦ absurd (doc.tagged h e)
    | inr (tag, e) ↦ elim (Option-cases (dia.sym_index_id h)) [
      | inl e1 ↦
          rw (create_type_symbol_step, e, e1)
            (Ends-done w false _ c (KnownIn-none dia h (types w) e1))
      | inr (id, e1) ↦
          let m0 = touch id (types w) in
          let w0 = with_types m0 w in
          let start : missing ids (touched dia h (types w)) ≡ missing ids m0 =
            rw (touched, e1) refl in
          let c0 = Closed-touch (types w) id c in
          let product = ap (λ n. n * (depth + 1)) start in
          let within : missing ids m0 * (depth + 1) + rank h ≤ fuel =
            omega (arith, product, enough) in
          let created = create_symbol-Ends h w0 c0 within tag e in
          rw (create_type_symbol_step, e, e1)
            (Ends-grown w w0 _ _ (Sub-touch (types w) id) refl (
              Ends-then_do w0 (create_symbol dia make tag h w0) _ SymbolIn _ created
                (λ w1 t s c1 refs.
                  let there = s id (contains-touch (types w) id) in
                  let stored = store-Ends dia make id w1 t c1 refs in
                  Ends-weaken w1 _ _ (λ m b. KnownIn dia h m) stored
                    (λ kept. KnownIn-id dia h (types stored.after) id e1 (kept there)))))
    ]
  ]

-- With more fuel than `cost`, which counts the symbols without an entry and their typedefs, the call
-- for a symbol ends without a fault, whatever the types refer to: entries stay, every reference of a
-- type has an entry if it was so before, the symbol itself has one, and the functions are as they
-- were.
pub create_type_symbol-Ends :
    (dia : Dia) (ids : List ℕ) (depth : ℕ) (rank : Handle → ℕ)
    → IsDia dia ids depth rank
    → (fuel : ℕ) (h : Handle) (w : World) → Closed (types w)
    → cost dia ids depth rank h (types w) < fuel
    → Ends w (create_type_symbol dia fuel (some h) w) (λ m created. KnownIn dia h m)
unfolding create_type_symbol
create_type_symbol-Ends dia ids depth rank doc zero h w c enough = absurd (omega (arith, enough))
create_type_symbol-Ends dia ids depth rank doc (suc fuel) h w c enough =
    create_type_symbol_step-Ends dia ids depth rank doc (create_type_symbol dia fuel) fuel
      (create_type_symbol-Ends dia ids depth rank doc fuel) h w c enough
