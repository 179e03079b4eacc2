-- ===== src/Dia/Verified.antt =====
-- The whole of `CreateUsymFromFile`: it reaches a `USYM`, and `VerifyTypeIds` accepts it.
use native.Mathlib.Nat.{mul-le-mul_right}
use universal_symbols.Prelude.{
  ℕ, ◌+◌, ◌*◌, ◌≤◌, ◌<◌, ◌≡◌, refl, ◌∙◌, true, List, [], ◌∷◌, some, arith, inl, inr, Option-cases,
  length,
}
use universal_symbols.Prelude.Map.{Map, Distinct, Distinct-put, put}
use universal_symbols.Usym
use universal_symbols.Usym.{TypeSymbol, FunctionSymbol, Usym}
use universal_symbols.Usym.Verify.{verify_functions, verify_types, verify_type_ids}
use universal_symbols.Usym.Purge.{purge_duplicate_types}
use universal_symbols.Usym.Verify.Purged.{verify_type_ids-purge_duplicate_types}
use universal_symbols.Dia.{Dia, Handle, SymTag}
use universal_symbols.Dia.Run.{World, Outcome, types}
use universal_symbols.Dia.Create.{Make, create_type_symbol}
use universal_symbols.Dia.Build.{
  build_header, create_types, build_type_list, put_function, build_functions, build_function_list,
  build_usym, Session, create_usym_from_file,
}
use universal_symbols.Dia.Growth.{Closed, missing, verify_functions-Sub}
use universal_symbols.Dia.Documented.{IsDia, functions, Ends, Ends-done, Ends-then_do}
use universal_symbols.Dia.Members.{KnownIn}
use universal_symbols.Dia.Calls.{cost, touched}
use universal_symbols.Dia.Termination.{create_type_symbol-Ends}
use universal_symbols.Dia.Functions.{FunctionIn, build_function-Ends}

verify_functions-put :
    (m : Map TypeSymbol) (fs : Map FunctionSymbol) (k : ℕ) (f : FunctionSymbol)
    → verify_functions m fs ≡ true
    → FunctionIn m f
    → verify_functions m (put k f fs) ≡ true
unfolding verify_functions put
verify_functions-put m [] k f h i = ground (arith, i.returns, i.arguments)
verify_functions-put m ((j, g) ∷ fs) k f h i =
    ground (arith, i.returns, i.arguments, verify_functions-put m fs k f (ground (arith, h)) i)

-- A run that ends in a world without open references.
pub record EndsVerified (o : Outcome Unit) : Type 0 where
  pub after : World
  pub ends : o ≡ Outcome.done after tt
  pub closed : Closed (types after)
  pub verified : verify_functions (types after) (functions after) ≡ true
  pub distinct : Distinct (functions after)

module _ (dia : Dia) (ids : List ℕ) (depth : ℕ) (rank : Handle → ℕ) (doc : IsDia dia ids depth rank)
    (make : Make)
    (makes : (h : Handle) (w : World)
      → Closed (types w)
      → Ends w (make (some h) w) (λ m created. KnownIn dia h m))
    (scope : Handle) where
  create_types-Ends :
      (hs : List Handle) (w : World)
      → Closed (types w)
      → Ends w (create_types dia scope make hs w) (λ m u. Unit)
  unfolding create_types
  create_types-Ends [] w c = Ends-done w tt _ c tt
  create_types-Ends (h ∷ hs) w c =
      Ends-then_do w (make (some h) w) _ _ _ (makes h w c)
        (λ w1 created s c1 known. create_types-Ends hs w1 c1)

  build_type_list-Ends :
      (tag : SymTag) (w : World)
      → Closed (types w)
      → Ends w (build_type_list dia scope make tag w) (λ m u. Unit)
  unfolding build_type_list
  build_type_list-Ends tag w c = elim (Option-cases (dia.find_children scope tag)) [
    | inl e ↦ rw (build_type_list, e) (Ends-done w tt _ c tt)
    | inr ((count, hs), e) ↦ rw (build_type_list, e) (create_types-Ends hs w c)
  ]

  build_functions-EndsVerified :
      (hs : List Handle) (w : World)
      → Closed (types w)
      → verify_functions (types w) (functions w) ≡ true
      → Distinct (functions w)
      → EndsVerified (build_functions dia scope make hs w)
  unfolding build_functions put_function
  build_functions-EndsVerified [] w c v d = record {
    after = w;
    ends = refl;
    closed = c;
    verified = v;
    distinct = d;
  }
  build_functions-EndsVerified (h ∷ hs) w c v d =
      let first = build_function-Ends dia ids depth rank doc make makes scope h w c v in
      let w1 = first.after in
      let f = first.result in
      let kept : verify_functions (types w1) (functions w1) ≡ true =
        rw first.same_functions
          (verify_functions-Sub (types w) (types w1) first.grows (functions w) v) in
      let rest =
        build_functions-EndsVerified hs (put_function dia scope make f w1) first.closed
          (verify_functions-put (types w1) (functions w1) f.id f kept first.holds)
          (Distinct-put f.id f (functions w1) (rw first.same_functions d)) in
      record {
        after = rest.after;
        ends = rw (first.ends, rest.ends) refl;
        closed = rest.closed;
        verified = rest.verified;
        distinct = rest.distinct;
      }

  build_function_list-EndsVerified :
      (w : World)
      → Closed (types w)
      → verify_functions (types w) (functions w) ≡ true
      → Distinct (functions w)
      → EndsVerified (build_function_list dia scope make w)
  unfolding build_function_list
  build_function_list-EndsVerified w c v d =
      elim (Option-cases (dia.find_children scope SymTag.function)) [
        | inl e ↦
            rw (build_function_list, e)
              (record { after = w; ends = refl; closed = c; verified = v; distinct = d })
        | inr ((count, hs), e) ↦
            rw (build_function_list, e) (build_functions-EndsVerified hs w c v d)
      ]

  build_usym-EndsVerified : (w : World) → EndsVerified (build_usym dia scope make w)
  unfolding build_usym verify_types verify_functions
  build_usym-EndsVerified w =
      let w0 = record w {
        usym = record Usym.new { header = build_header dia scope Usym.new.header };
      } in
      let a = build_type_list-Ends SymTag.base_type w0 (refl, tt) in
      let b = build_type_list-Ends SymTag.udt a.after a.closed in
      let c = build_type_list-Ends SymTag.enum b.after b.closed in
      let d = build_type_list-Ends SymTag.typedef c.after c.closed in
      let e = build_type_list-Ends SymTag.pointer_type d.after d.closed in
      let none_yet : functions e.after ≡ [] =
        e.same_functions ∙ d.same_functions ∙ c.same_functions ∙ b.same_functions
        ∙ a.same_functions in
      let f =
        build_function_list-EndsVerified e.after e.closed (rw none_yet refl) (rw none_yet tt) in
      record {
        after = f.after;
        ends = rw (a.ends, b.ends, c.ends, d.ends, e.ends, f.ends) refl;
        closed = f.closed;
        verified = f.verified;
        distinct = f.distinct;
      }

missing_le : (ids : List ℕ) (m : Map TypeSymbol) → missing ids m ≤ length ids
unfolding missing
missing_le [] m = omega arith
missing_le (id ∷ ids) m = ground (arith, missing_le ids m)

-- What a file that opens becomes.
pub record IsBuilt (dia : Dia) (scope : Handle) (fuel : ℕ) (w w1 : World) : Type 0 where
  pub ends :
      create_usym_from_file fuel (Session.opened dia scope) w ≡ Outcome.done w1 (some w1.usym)
  pub verified : verify_type_ids w1.usym ≡ true
  pub distinct : Distinct w1.usym.type_symbols
  pub distinct_functions : Distinct w1.usym.function_symbols

pub create_usym_from_file-IsBuilt :
    (dia : Dia) (scope : Handle) (ids : List ℕ) (depth : ℕ) (rank : Handle → ℕ)
    → IsDia dia ids depth rank
    → (fuel : ℕ) → length ids * (depth + 1) + depth < fuel
    → (w : World) → (w1 : World) × (IsBuilt dia scope fuel w w1)
unfolding create_usym_from_file verify_type_ids cost
create_usym_from_file-IsBuilt dia scope ids depth rank doc fuel enough w =
    let makes : (h : Handle) (w : World)
        → Closed (types w)
        → Ends w (create_type_symbol dia fuel (some h) w) (λ m created. KnownIn dia h m) =
      λ h w c. create_type_symbol-Ends dia ids depth rank doc fuel h w c (
        omega (
          arith,
          mul-le-mul_right (depth + 1) (missing_le ids (touched dia h (types w))),
          doc.rank_bound h,
          enough,
        )) in
    let built =
      build_usym-EndsVerified dia ids depth rank doc (create_type_symbol dia fuel) makes scope w in
    (
      built.after,
      record {
        ends = rw (create_usym_from_file, built.ends) refl;
        verified = rw (built.verified, built.closed.0) refl;
        distinct = built.closed.1;
        distinct_functions = built.distinct;
      },
    )

-- A file that opens: where the debug interface behaves as documented, the run ends with a `USYM`,
-- without reading through a null pointer, as soon as there is fuel for every symbol of the file with
-- its typedefs. `VerifyTypeIds` accepts the result, whatever could not be made on the way, and it
-- accepts it still after duplicate types are purged, whatever the hash.
pub create_usym_from_file-verify_type_ids :
    (dia : Dia) (scope : Handle) (ids : List ℕ) (depth : ℕ) (rank : Handle → ℕ)
    → IsDia dia ids depth rank
    → (fuel : ℕ) → length ids * (depth + 1) + depth < fuel
    → (w : World) (hash : TypeSymbol → ℕ)
    → (w1 : World) × (create_usym_from_file fuel (Session.opened dia scope) w
        ≡ Outcome.done w1 (some w1.usym))
      × (verify_type_ids w1.usym ≡ true)
      × (verify_type_ids (purge_duplicate_types hash w1.usym) ≡ true)
create_usym_from_file-verify_type_ids dia scope ids depth rank doc fuel enough w hash =
    let (w1, built) = create_usym_from_file-IsBuilt dia scope ids depth rank doc fuel enough w in
    (
      w1,
      built.ends,
      built.verified,
      verify_type_ids-purge_duplicate_types hash w1.usym built.distinct built.verified,
    )
