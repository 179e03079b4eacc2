-- ===== src/Dia/Functions.antt =====
-- The functions of a file: what they refer to has an entry.
use universal_symbols.Prelude.{
  ℕ, ◌+◌, ◌≡◌, refl, sym, ap, ◌∙◌, true, ◌&&◌, ◌==◌, List, [], ◌∷◌, ◌++◌, none, some, All, arith,
  inl, inr, Bool-cases, Option-cases, get_or, ltb,
}
use universal_symbols.Prelude.Map.{Map, find, contains}
use universal_symbols.Usym.{TypeSymbol, FunctionSymbol, new_function}
use universal_symbols.Usym.Verify.{resolves, verify_arguments, verify_functions}
use universal_symbols.Dia.{Dia, Handle, SymTag}
use universal_symbols.Dia.Names.{get_name_from_symbol}
use universal_symbols.Dia.Run.{World, types}
use universal_symbols.Dia.Create.{Make}
use universal_symbols.Dia.Build.{
  make_missing, build_return_type, build_this, build_arguments, build_all_arguments, build_rest,
  build_typed_function, build_function, is_no_type,
}
use universal_symbols.Dia.Growth.{Sub, Closed, resolves-Sub, verify_arguments-Sub}
use universal_symbols.Dia.Documented.{IsDia, functions, Ends, Ends-done, Ends-then_do}
use universal_symbols.Dia.Members.{KnownIn}

pub record FunctionIn (m : Map TypeSymbol) (f : FunctionSymbol) : Type 0 where
  pub returns : resolves m f.return_type_id ≡ true
  pub arguments : verify_arguments m f.argument_type_ids ≡ true

pub FunctionIn-Sub :
    (m m1 : Map TypeSymbol) (f : FunctionSymbol) → Sub m m1 → FunctionIn m f → FunctionIn m1 f
FunctionIn-Sub m m1 f s i = record {
  returns = resolves-Sub m m1 s f.return_type_id i.returns;
  arguments = verify_arguments-Sub m m1 s f.argument_type_ids i.arguments;
}

verify_arguments-append :
    (m : Map TypeSymbol) (ids : List ℕ) (id : ℕ)
    → verify_arguments m ids ≡ true
    → resolves m id ≡ true
    → verify_arguments m (ids ++ (id ∷ [])) ≡ true
unfolding verify_arguments
verify_arguments-append m [] id h r = ground (arith, r)
verify_arguments-append m (j ∷ ids) id h r = ground (arith, r, verify_arguments-append m ids id)

add_argument :
    (m m1 : Map TypeSymbol) (f : FunctionSymbol) (id : ℕ)
    → Sub m m1
    → FunctionIn m f
    → resolves m1 id ≡ true
    → FunctionIn m1 (record f { argument_type_ids = f.argument_type_ids ++ (id ∷ []) })
add_argument m m1 f id s i r = record {
  returns = resolves-Sub m m1 s f.return_type_id i.returns;
  arguments =
      verify_arguments-append m1 f.argument_type_ids id
        (verify_arguments-Sub m m1 s f.argument_type_ids i.arguments) r;
}

FunctionIn-find :
    (m : Map TypeSymbol) (fs : Map FunctionSymbol) (id : ℕ)
    → verify_functions m fs ≡ true
    → FunctionIn m (get_or (find id fs) new_function)
unfolding verify_functions verify_arguments resolves
FunctionIn-find m [] id h = record { returns = refl; arguments = refl }
FunctionIn-find m ((j, f) ∷ fs) id h = elim (Bool-cases (j == id)) [
  | inl hit ↦ rw hit (record { returns = ground (arith, h); arguments = ground (arith, h) })
  | inr miss ↦ rw miss (FunctionIn-find m fs id (ground (arith, h)))
]

module _ (dia : Dia) (ids : List ℕ) (depth : ℕ) (rank : Handle → ℕ) (doc : IsDia dia ids depth rank)
    (make : Make)
    (makes : (h : Handle) (w : World)
      → Closed (types w)
      → Ends w (make (some h) w) (λ m created. KnownIn dia h m))
    (scope : Handle) where
  known_resolves :
      (m : Map TypeSymbol) (type : Handle)
      → KnownIn dia type m
      → resolves m (get_or (dia.sym_index_id type) 0) ≡ true
  unfolding resolves KnownIn
  known_resolves m type known = elim (Option-cases (dia.sym_index_id type)) [
    | inl e ↦ rw e refl
    | inr (id, e) ↦ let there = known id e in rw e (ground (arith, there))
  ]

  make_missing-Ends :
      (type : Handle) (w : World)
      → Closed (types w)
      → Ends w
          (make_missing dia scope make (get_or (dia.sym_index_id type) 0) type w)
          (λ m u. resolves m (get_or (dia.sym_index_id type) 0) ≡ true)
  unfolding make_missing resolves
  make_missing-Ends type w c =
      elim (Bool-cases (contains (get_or (dia.sym_index_id type) 0) (types w))) [
        | inl there ↦ rw (make_missing, there) (Ends-done w tt _ c (ground (arith, there)))
        | inr out ↦
            rw (make_missing, out)
              (Ends-then_do w (make (some type) w) _ (λ m created. KnownIn dia type m) _
                (makes type w c)
                (λ w1 created s c1 known.
                  Ends-done w1 tt _ c1 (known_resolves (types w1) type known)))
      ]

  build_return_type-Ends :
      (function_type : Handle) (f : FunctionSymbol) (w : World)
      → Closed (types w)
      → FunctionIn (types w) f
      → Ends w (build_return_type dia scope make function_type f w) FunctionIn
  unfolding build_return_type
  build_return_type-Ends function_type f w c i = elim (Option-cases (dia.type function_type)) [
    | inl e ↦ rw (build_return_type, e) (Ends-done w f FunctionIn c i)
    | inr (none, e) ↦ rw (build_return_type, e) (Ends-done w f FunctionIn c i)
    | inr (some type, e) ↦
        rw (build_return_type, e)
          (Ends-then_do w (make_missing dia scope make (get_or (dia.sym_index_id type) 0) type w) _
            _ FunctionIn (make_missing-Ends type w c)
            (λ w1 u s c1 there.
              let kept = FunctionIn-Sub (types w) (types w1) f s i in
              Ends-done w1 _ FunctionIn c1 (record {
                returns = elim (Option-cases (dia.sym_index_id type)) [
                  | inl e1 ↦ rw e1 kept.returns
                  | inr (id, e1) ↦
                      rw e1 (ap (λ o. resolves (types w1) (get_or o 0)) (sym e1) ∙ there)
                ];
                arguments = kept.arguments;
              })))
  ]

  build_this-Ends :
      (function_type : Handle) (f : FunctionSymbol) (w : World)
      → Closed (types w)
      → FunctionIn (types w) f
      → Ends w (build_this dia scope make function_type f w) FunctionIn
  unfolding build_this
  build_this-Ends function_type f w c i =
      elim (Option-cases (dia.object_pointer_type function_type)) [
        | inl e ↦ rw (build_this, e) (Ends-done w f FunctionIn c i)
        | inr (none, e) ↦ rw (build_this, e) (Ends-done w f FunctionIn c i)
        | inr (some this, e) ↦
            rw (build_this, e)
              (Ends-then_do w
                (make_missing dia scope make (get_or (dia.sym_index_id this) 0) this w) _ _
                FunctionIn (make_missing-Ends this w c)
                (λ w1 u s c1 there.
                  Ends-done w1 _ FunctionIn c1 (add_argument (types w) (types w1) f _ s i there)))
      ]

  build_arguments-Ends :
      (arguments : List Handle) (position : ℕ) (f : FunctionSymbol) (w : World)
      → All (λ a. dia.sym_tag a ≡ some SymTag.function_arg_type) arguments
      → Closed (types w)
      → FunctionIn (types w) f
      → Ends w (build_arguments dia scope make position arguments f w) FunctionIn
  unfolding build_arguments
  build_arguments-Ends [] position f w tags c i = Ends-done w f FunctionIn c i
  build_arguments-Ends (a ∷ arguments) position f w tags c i = elim (Option-cases (dia.type a)) [
    | inl e ↦ absurd (doc.argument_type a tags.0 e)
    | inr (none, e) ↦ absurd (doc.typed a e)
    | inr (some type, e) ↦ elim (Bool-cases (is_no_type dia scope type && (position == 0))) [
      | inl skipped ↦
          rw (build_arguments, e, skipped) (build_arguments-Ends arguments position f w tags.1 c i)
      | inr counted ↦
          rw (build_arguments, e, counted)
            (Ends-then_do w (make_missing dia scope make (get_or (dia.sym_index_id type) 0) type w)
              _ _ FunctionIn (make_missing-Ends type w c)
              (λ w1 u s c1 there.
                build_arguments-Ends arguments (position + 1) _ w1 tags.1 c1
                  (add_argument (types w) (types w1) f _ s i there)))
    ]
  ]

  build_all_arguments-Ends :
      (function_type : Handle) (f : FunctionSymbol) (w : World)
      → Closed (types w)
      → FunctionIn (types w) f
      → Ends w (build_all_arguments dia scope make function_type f w) FunctionIn
  unfolding build_all_arguments
  build_all_arguments-Ends function_type f w c i = elim (Bool-cases (ltb 0 f.argument_count)) [
    | inr no_arguments ↦ rw (build_all_arguments, no_arguments) (Ends-done w f FunctionIn c i)
    | inl some_arguments ↦
        rw (build_all_arguments, some_arguments)
          (Ends-then_do w (build_this dia scope make function_type f w) _ FunctionIn FunctionIn
            (build_this-Ends function_type f w c i)
            (λ w1 f1 s c1 i1.
              elim (Option-cases (dia.find_children function_type SymTag.function_arg_type)) [
                | inl e ↦ rw e (Ends-done w1 f1 FunctionIn c1 i1)
                | inr ((count, hs), e) ↦
                    rw e (
                      build_arguments-Ends hs 0 f1 w1 (doc.arguments function_type count hs e) c1
                        i1)
              ]))
  ]

  -- A function with all that it refers to.
  pub build_function-Ends :
      (h : Handle) (w : World)
      → Closed (types w)
      → verify_functions (types w) (functions w) ≡ true
      → Ends w (build_function dia scope make h w) FunctionIn
  unfolding build_function build_typed_function build_rest
  build_function-Ends h w c verified =
      let f0 = get_or (find (get_or (dia.sym_index_id h) 0) (functions w)) new_function in
      let f = record f0 { id = get_or (dia.sym_index_id h) 0; name = get_name_from_symbol dia h } in
      let i0 = FunctionIn-find (types w) (functions w) (get_or (dia.sym_index_id h) 0) verified in
      let i : FunctionIn (types w) f = record { returns = i0.returns; arguments = i0.arguments } in
      elim (Option-cases (dia.type h)) [
        | inl e ↦ rw (build_function, e) (Ends-done w f FunctionIn c i)
        | inr (none, e) ↦ rw (build_function, e) (Ends-done w f FunctionIn c i)
        | inr (some t, e) ↦
            rw (build_function, e)
              (Ends-then_do w (build_return_type dia scope make t f w) _ FunctionIn FunctionIn
                (build_return_type-Ends t f w c i)
                (λ w1 f1 s c1 i1.
                  Ends-then_do w1
                    (build_all_arguments dia scope make t
                      (record f1 { argument_count = get_or (dia.count t) f1.argument_count }) w1)
                    _ FunctionIn FunctionIn
                    (build_all_arguments-Ends t _ w1 c1
                      (record { returns = i1.returns; arguments = i1.arguments }))
                    (λ w2 f3 s2 c2 i3.
                      Ends-done w2 _ FunctionIn c2
                        (record { returns = i3.returns; arguments = i3.arguments }))))
      ]
