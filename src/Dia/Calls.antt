-- ===== src/Dia/Calls.antt =====
-- The calls that `CreateTypeSymbol` makes of itself need less fuel than the call that makes them has,
-- and the symbols it starts from have no references yet.
use native.Mathlib.Nat.{mul-le-mul_right}
use universal_symbols.Prelude.{
  ℕ, ◌+◌, ◌*◌, ◌≤◌, ◌<◌, ◌≡◌, ◌∙◌, false, List, [], Option, none, some, arith, inl, inr,
  Option-cases, get_or,
}
use universal_symbols.Prelude.Map.{Map, contains}
use universal_symbols.Usym.{TypeSymbol, new_type}
use universal_symbols.Usym.Verify.{resolves, verify_fields}
use universal_symbols.Dia.{Dia, Handle}
use universal_symbols.Dia.Run.{World, Outcome, types, touch}
use universal_symbols.Dia.Create.{
  Make, create_base_type_symbol, create_array_type_symbol, udt_head, enum_head, typedef_of,
}
use universal_symbols.Dia.Growth.{
  Sub, Sub-trans, Sub-refl, Sub-touch, contains-touch, Closed, RefsIn, RefsIn-new_type, missing,
  missing-Sub, missing-less,
}
use universal_symbols.Dia.Documented.{IsDia, Ends}
use universal_symbols.Dia.Members.{KnownIn}

abbrev pub SymbolIn : Map TypeSymbol → Option TypeSymbol → Type 0
SymbolIn m t = RefsIn m (get_or t new_type)

-- A head has no references yet.
module _ (dia : Dia) (m : Map TypeSymbol) where
  pub base_type-RefsIn : (h : Handle) → SymbolIn m (create_base_type_symbol dia h)
  unfolding create_base_type_symbol resolves verify_fields
  base_type-RefsIn h = record { source = ground arith; fields = ground arith }

  pub array_type-RefsIn : (h : Handle) → SymbolIn m (create_array_type_symbol dia h)
  unfolding create_array_type_symbol resolves verify_fields
  array_type-RefsIn h = record { source = ground arith; fields = ground arith }

  pub udt_head-RefsIn : (make : Make) (h : Handle) → SymbolIn m (udt_head dia make h)
  unfolding udt_head resolves verify_fields
  udt_head-RefsIn make h = record { source = ground arith; fields = ground arith }

  pub enum_head-RefsIn : (make : Make) (h : Handle) → SymbolIn m (enum_head dia make h)
  unfolding enum_head resolves verify_fields
  enum_head-RefsIn make h = record { source = ground arith; fields = ground arith }

  pub typedef_of-RefsIn :
      (make : Make) (type : Handle) (t : TypeSymbol)
      → KnownIn dia type m
      → t.typedef_source ≡ 0
      → t.fields ≡ []
      → SymbolIn m (typedef_of dia make type t)
  unfolding typedef_of resolves verify_fields KnownIn
  typedef_of-RefsIn make type t known none_yet no_fields = elim (Option-cases (dia.length type)) [
    | inl e ↦ rw (typedef_of, e) (RefsIn-new_type m)
    | inr (length, e) ↦ elim (Option-cases (dia.sym_index_id type)) [
      | inl e1 ↦ rw (typedef_of, e, e1) (RefsIn-new_type m)
      | inr (id, e1) ↦
          let at = known id e1 in
          rw (typedef_of, e, e1)
            (record { source = ground (arith, at); fields = ground (arith, no_fields) })
    ]
  ]

-- From a world with more entries.
pub Ends-grown :
    {A : Type 0} (w w0 : World) (o : Outcome A) (P : Map TypeSymbol → A → Type 0)
    → Sub (types w) (types w0)
    → w0.usym.function_symbols ≡ w.usym.function_symbols
    → Ends w0 o P
    → Ends w o P
Ends-grown w w0 o P sub same r = record {
  after = r.after;
  result = r.result;
  ends = r.ends;
  grows = Sub-trans (types w) (types w0) (types r.after) sub r.grows;
  closed = r.closed;
  same_functions = r.same_functions ∙ same;
  holds = r.holds;
}

-- The map with an entry for the symbol.
unfoldable pub touched : Dia → Handle → Map TypeSymbol → Map TypeSymbol
unfolding touch
touched dia h m = elim (dia.sym_index_id h) [ none ↦ m | some id ↦ touch id m ]

-- What a call needs: a step for every symbol that will still be made, each with its typedefs.
unfoldable pub cost : Dia → List ℕ → ℕ → (Handle → ℕ) → Handle → Map TypeSymbol → ℕ
unfolding touched missing
cost dia ids depth rank h m = missing ids (touched dia h m) * (depth + 1) + rank h

Sub-touched : (dia : Dia) (h : Handle) (m : Map TypeSymbol) → Sub m (touched dia h m)
unfolding touched
Sub-touched dia h m = elim (Option-cases (dia.sym_index_id h)) [
  | inl e ↦ rw (touched, e) (Sub-refl m)
  | inr (id, e) ↦ rw (touched, e) (Sub-touch m id)
]

product_le : (a b d : ℕ) → a ≤ b → a * (d + 1) ≤ b * (d + 1)
product_le a b d h = mul-le-mul_right (d + 1) h

product_less : (a b d : ℕ) → a < b → a * (d + 1) + d < b * (d + 1)
product_less a b d h = omega (arith, mul-le-mul_right (d + 1) h)

module _ (dia : Dia) (ids : List ℕ) (depth : ℕ) (rank : Handle → ℕ) (doc : IsDia dia ids depth rank)
    (make : Make) (fuel : ℕ)
    (promise : (h : Handle) (w : World)
      → Closed (types w)
      → cost dia ids depth rank h (types w) < fuel
      → Ends w (make (some h) w) (λ m created. KnownIn dia h m)) where
  -- The calls from a symbol with `m0` as the map behind its own entry.
  module _ (h : Handle) (m0 : Map TypeSymbol)
      (enough : missing ids m0 * (depth + 1) + rank h ≤ fuel) where
    pub missing_type :
        (w : World) (type : Handle) (id : ℕ)
        → Sub m0 (types w)
        → Closed (types w)
        → dia.sym_index_id type ≡ some id
        → contains id (types w) ≡ false
        → Ends w (make (some type) w) (λ m created. KnownIn dia type m)
    unfolding cost touched
    missing_type w type id sub c e out =
        let m1 = touch id (types w) in
        let fewer =
          missing-less ids (types w) m1 id (Sub-touch (types w) id) (doc.known type id e) out
            (contains-touch (types w) id) in
        let less =
          product_less (missing ids m1) (missing ids m0) depth
            (omega (arith, fewer, missing-Sub ids m0 (types w) sub)) in
        let bound = doc.rank_bound type in
        promise type w c (rw (touched, e) (omega (arith, less, bound, enough)))

    pub typedef_type :
        (w : World) (type : Handle)
        → Sub m0 (types w)
        → Closed (types w)
        → rank type < rank h
        → Ends w (make (some type) w) (λ m created. KnownIn dia type m)
    unfolding cost
    typedef_type w type sub c less =
        let m1 = touched dia type (types w) in
        let fewer =
          missing-Sub ids m0 m1 (Sub-trans m0 (types w) m1 sub (Sub-touched dia type (types w))) in
        let at_most = product_le (missing ids m1) (missing ids m0) depth fewer in
        promise type w c (omega (arith, at_most, less, enough))
