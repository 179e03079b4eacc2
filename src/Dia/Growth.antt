-- ===== src/Dia/Growth.antt =====
-- How the map of types grows: keys stay, what resolves goes on to resolve, and fewer of the symbols of
-- the file are missing.
use universal_symbols.Prelude.{
  ℕ, ◌+◌, ◌≤◌, ◌<◌, ◌≡◌, refl, Bool, true, false, ◌||◌, List, [], ◌∷◌, arith, inl, inr, Bool-cases,
  ◌==◌, ==_iff, if◌then◌else◌,
}
use universal_symbols.Prelude.Map.{Map, Distinct, contains, put, find-put, Distinct-put}
use universal_symbols.Usym.{FieldSymbol, TypeSymbol, FunctionSymbol, new_type}
use universal_symbols.Usym.Verify.{
  resolves, verify_arguments, verify_fields, verify_types, verify_functions,
}
use universal_symbols.Dia.Run.{touch}

unfoldable pub Sub : Map TypeSymbol → Map TypeSymbol → Type 0
Sub m m1 = (id : ℕ) → contains id m ≡ true → contains id m1 ≡ true

-- The references of one type.
pub record RefsIn (m : Map TypeSymbol) (t : TypeSymbol) : Type 0 where
  pub source : resolves m t.typedef_source ≡ true
  pub fields : verify_fields m t.fields ≡ true

-- No reference of a type is open, and every identity has one entry.
abbrev pub Closed : Map TypeSymbol → Type 0
Closed m = (verify_types m m ≡ true) × (Distinct m)

pub contains-put : (m : Map TypeSymbol) (k : ℕ) (t : TypeSymbol) → contains k (put k t m) ≡ true
contains-put m k t = ground (arith, find-put k k t m)

pub Sub-put : (m : Map TypeSymbol) (k : ℕ) (t : TypeSymbol) → Sub m (put k t m)
unfolding Sub
Sub-put m k t id h = ground (arith, find-put k id t m)

pub Sub-refl : (m : Map TypeSymbol) → Sub m m
unfolding Sub
Sub-refl m id h = h

pub Sub-trans : (m m1 m2 : Map TypeSymbol) → Sub m m1 → Sub m1 m2 → Sub m m2
unfolding Sub
Sub-trans m m1 m2 a b id h = b id (a id h)

pub Sub-touch : (m : Map TypeSymbol) (k : ℕ) → Sub m (touch k m)
unfolding Sub touch
Sub-touch m k id h = ground (arith, find-put k id new_type m)

pub contains-touch : (m : Map TypeSymbol) (k : ℕ) → contains k (touch k m) ≡ true
unfolding touch
contains-touch m k = ground (arith, contains-put m k new_type)

module _ (m m1 : Map TypeSymbol) (sub : Sub m m1) where
  pub resolves-Sub : (id : ℕ) → resolves m id ≡ true → resolves m1 id ≡ true
  unfolding resolves Sub
  resolves-Sub id h = ground (arith, sub id)

  pub verify_fields-Sub :
      (fs : List FieldSymbol) → verify_fields m fs ≡ true → verify_fields m1 fs ≡ true
  unfolding verify_fields
  verify_fields-Sub [] h = refl
  verify_fields-Sub (f ∷ fs) h =
      ground (arith, resolves-Sub f.underlying_type_id, verify_fields-Sub fs)

  pub verify_types-Sub :
      (ts : Map TypeSymbol) → verify_types m ts ≡ true → verify_types m1 ts ≡ true
  unfolding verify_types
  verify_types-Sub [] h = refl
  verify_types-Sub ((id, t) ∷ ts) h =
      ground (arith, resolves-Sub t.typedef_source, verify_fields-Sub t.fields, verify_types-Sub ts)

  pub verify_arguments-Sub :
      (ids : List ℕ) → verify_arguments m ids ≡ true → verify_arguments m1 ids ≡ true
  unfolding verify_arguments
  verify_arguments-Sub [] h = refl
  verify_arguments-Sub (id ∷ ids) h = ground (arith, resolves-Sub id, verify_arguments-Sub ids)

  pub verify_functions-Sub :
      (fs : Map FunctionSymbol) → verify_functions m fs ≡ true → verify_functions m1 fs ≡ true
  unfolding verify_functions
  verify_functions-Sub [] h = refl
  verify_functions-Sub ((id, f) ∷ fs) h = ground (
    arith,
    resolves-Sub f.return_type_id,
    verify_arguments-Sub f.argument_type_ids,
    verify_functions-Sub fs,
  )

  pub RefsIn-Sub : (t : TypeSymbol) → RefsIn m t → RefsIn m1 t
  RefsIn-Sub t r = record {
    source = resolves-Sub t.typedef_source r.source;
    fields = verify_fields-Sub t.fields r.fields;
  }

pub verify_types-put :
    (m ts : Map TypeSymbol) (k : ℕ) (t : TypeSymbol)
    → verify_types m ts ≡ true
    → RefsIn m t
    → verify_types m (put k t ts) ≡ true
unfolding verify_types put
verify_types-put m [] k t h r = ground (arith, r.source, r.fields)
verify_types-put m ((j, s) ∷ ts) k t h r =
    ground (arith, r.source, r.fields, verify_types-put m ts k t)

pub Closed-put :
    (m : Map TypeSymbol) (k : ℕ) (t : TypeSymbol) → Closed m → RefsIn m t → Closed (put k t m)
Closed-put m k t h r =
    let put_in = verify_types-put m m k t h.0 r in
    (verify_types-Sub m (put k t m) (Sub-put m k t) (put k t m) put_in, Distinct-put k t m h.1)

pub RefsIn-new_type : (m : Map TypeSymbol) → RefsIn m new_type
unfolding resolves verify_fields
RefsIn-new_type m = record { source = refl; fields = refl }

pub Closed-touch : (m : Map TypeSymbol) (k : ℕ) → Closed m → Closed (touch k m)
unfolding touch
Closed-touch m k h = elim (Bool-cases (contains k m)) [
  | inl there ↦ rw (touch, there) h
  | inr out ↦ rw (touch, out) (Closed-put m k new_type h (RefsIn-new_type m))
]

-- How many of the file's identities have no entry.
unfoldable pub missing : List ℕ → Map TypeSymbol → ℕ
missing [] m = 0
missing (id ∷ ids) m = (if contains id m then 0 else 1) + missing ids m

abbrev pub member : ℕ → List ℕ → Bool
member id [] = false
member id (j ∷ ids) = (j == id) || member id ids

pub missing-Sub : (ids : List ℕ) (m m1 : Map TypeSymbol) → Sub m m1 → missing ids m1 ≤ missing ids m
unfolding missing Sub
missing-Sub [] m m1 sub = omega arith
missing-Sub (id ∷ ids) m m1 sub = ground (arith, missing-Sub ids m m1 sub, sub id)

pub missing-less :
    (ids : List ℕ) (m m1 : Map TypeSymbol) (id : ℕ)
    → Sub m m1
    → member id ids ≡ true
    → contains id m ≡ false
    → contains id m1 ≡ true
    → missing ids m1 < missing ids m
unfolding missing Sub
missing-less [] m m1 id sub inside out now = cc
missing-less (j ∷ ids) m m1 id sub inside out now = elim (Bool-cases (j == id)) [
  | inl hit ↦
      let same : j ≡ id = (==_iff j id).0 hit in
      let out1 : contains j m ≡ false = rw same out in
      let now1 : contains j m1 ≡ true = rw same now in
      let rest = missing-Sub ids m m1 sub in rw (out1, now1) (omega (arith, rest))
  | inr miss ↦
      let rest = missing-less ids m m1 id sub (ground arith) out now in ground (arith, rest, sub j)
]
