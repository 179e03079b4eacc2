-- ===== src/Serialize/Lifecycle.antt =====
-- Programs that choose serializers and serialize the same symbols in any order.
use mathlib.Core.Path.{subst}
use universal_symbols.Prelude.{
  ℕ, suc, ◌≡◌, refl, sym, ap, ◌∙◌, true, false, not, Option, none, some, ◌>>=◌, Text, inl, inr, ◌⊎◌,
}
use universal_symbols.Prelude.Map.{Distinct}
use universal_symbols.Usym.{TypeSymbol, Usym}
use universal_symbols.Usym.Purge.{purge_duplicate_types}
use universal_symbols.Usym.Purge.Settled.{purge_often, purge_often-Distinct, purge_often-next}
use universal_symbols.Usym.Verify.{verify_type_ids}
use universal_symbols.Usym.Verify.Purged.{verify_type_ids-purge_duplicate_types}
use universal_symbols.Serializers.{SerializerType, Disk}
use universal_symbols.Serializers.Library.{JsonLibrary}
use universal_symbols.Serialize.{
  Program, SetResult, Outcome, set_serializer, serialize, point_to, setup, run,
}

-- What an optional value is, where it is there.
abbrev AllOf : {A : Type 0} → (A → Type 0) → Option A → Type 0
AllOf P none = Unit
AllOf P (some a) = P a

AllOf-elim :
    {A B : Type 0} (P : B → Type 0) (o : Option A) (x : Option B) (f : A → Option B)
    → AllOf P x
    → ((a : A) → AllOf P (f a))
    → AllOf P (elim o [ none ↦ x | some a ↦ f a ])
AllOf-elim P none x f hx hf = hx
AllOf-elim P (some a) x f hx hf = hf a

AllOf-bind :
    {A B : Type 0} (P : B → Type 0) (o : Option A) (f : A → B)
    → ((a : A) → P (f a))
    → AllOf P (o >>= λ a. some (f a))
AllOf-bind P none f h = tt
AllOf-bind P (some a) f h = h a

module _ (l : JsonLibrary) (hash : TypeSymbol → ℕ) (grow : ℕ → ℕ) where
  -- A call of `SetSerializer` that does not throw, or a call of `Serialize`, also one
  -- that an exception leaves.
  pub data Step (p : Program l hash grow) (d : Disk) : Program l hash grow → Disk → Type 0 where
    chosen :
        {q : Program l hash grow} {e : Disk} (kind : SerializerType)
        → set_serializer l hash grow kind p ≡ SetResult.done q
        → e ≡ d
        → Step p d q e
    written :
        {q : Program l hash grow} {e : Disk} (output : Text) (o : Outcome l hash grow)
        → serialize l hash grow output p d ≡ some o
        → q ≡ o.program
        → e ≡ o.disk
        → Step p d q e

  -- Any number of calls from symbols without a serializer.
  pub data Reach (u : Usym) (d : Disk) : Program l hash grow → Disk → Type 0 where
    start : {p : Program l hash grow} → p ≡ record { usym = u; serializer = none } → Reach u d p d
    later : {p q : Program l hash grow} {e f : Disk} → Reach u d p e → Step p e q f → Reach u d q f

  set_serializer-usym :
      (kind : SerializerType) (p q : Program l hash grow)
      → set_serializer l hash grow kind p ≡ SetResult.done q
      → q.usym ≡ p.usym
  unfolding set_serializer
  set_serializer-usym SerializerType.binary p q e =
      sym (ap (λ r. elim r [ SetResult.done x ↦ x.usym | SetResult.thrown m ↦ p.usym ]) e)
  set_serializer-usym SerializerType.json p q e =
      sym (ap (λ r. elim r [ SetResult.done x ↦ x.usym | SetResult.thrown m ↦ p.usym ]) e)
  set_serializer-usym (SerializerType.other n) p q e = cc

  -- `Serialize` leaves the symbols as they are, without a serializer, or purges them once.
  abbrev IsOnce : Usym → Outcome l hash grow → Type 0
  IsOnce u o =
      ((o.program.usym ≡ u) × (o.critical ≡ false))
      ⊎ ((o.program.usym ≡ purge_duplicate_types hash u)
          × (o.critical ≡ not (verify_type_ids (purge_duplicate_types hash u))))

  serialize-IsOnce :
      (output : Text) (p : Program l hash grow) (d : Disk)
      → AllOf (IsOnce p.usym) (serialize l hash grow output p d)
  unfolding serialize
  serialize-IsOnce output p d = AllOf-elim (IsOnce p.usym) p.serializer _ _ (inl (refl, refl)) λ s.
      AllOf-bind (IsOnce p.usym)
        (run l hash grow
          (point_to l hash grow (purge_duplicate_types hash p.usym)
            (setup l hash grow output p.usym s))
          d)
        _ λ r. inr (refl, refl)

  -- The symbols after so many purges, whose type ids resolve.
  pub record IsPurged (u v : Usym) : Type 0 where
    pub often : ℕ
    pub purged : v ≡ purge_often hash often u
    pub verified : verify_type_ids v ≡ true

  serialize-IsPurged :
      (u : Usym)
      → Distinct u.type_symbols
      → (output : Text) (p : Program l hash grow) (d : Disk) (o : Outcome l hash grow)
      → serialize l hash grow output p d ≡ some o
      → IsPurged u p.usym
      → IsPurged u o.program.usym × (o.critical ≡ false)
  serialize-IsPurged u distinct output p d o ran h =
      let apart : Distinct p.usym.type_symbols =
        subst (λ (v : Usym). Distinct v.type_symbols) (sym h.purged)
          (purge_often-Distinct hash h.often u distinct) in
      let verified = verify_type_ids-purge_duplicate_types hash p.usym apart h.verified in
      elim (subst (AllOf (IsOnce p.usym)) ran (serialize-IsOnce output p d)) [
        | inl (same, quiet) ↦ (subst (IsPurged u) (sym same) h, quiet)
        | inr (once, logged) ↦ (
          record {
            often = suc h.often;
            purged =
                once ∙ ap (purge_duplicate_types hash) h.purged ∙ purge_often-next hash h.often u;
            verified = subst (λ v. verify_type_ids v ≡ true) (sym once) verified;
          },
          logged ∙ ap not verified,
        )
      ]

  Reach-IsPurged :
      (u : Usym) (d e : Disk) (p : Program l hash grow)
      → Distinct u.type_symbols
      → verify_type_ids u ≡ true
      → Reach u d p e
      → IsPurged u p.usym
  unfolding purge_often
  Reach-IsPurged u d e p distinct verified (start at) =
      let same : p.usym ≡ u = ap (λ (q : Program l hash grow). q.usym) at in
      subst (IsPurged u) (sym same) (record { often = 0; purged = refl; verified = verified })
  Reach-IsPurged u d e p distinct verified (later reach (chosen kind set here)) =
      subst (IsPurged u) (sym (set_serializer-usym kind _ _ set))
        (Reach-IsPurged u d _ _ distinct verified reach)
  Reach-IsPurged u d e p distinct verified (later reach (written output o ran next here)) =
      let (h, quiet) =
        serialize-IsPurged u distinct output _ _ o ran
          (Reach-IsPurged u d _ _ distinct verified reach) in
      subst (λ (q : Program l hash grow). IsPurged u q.usym) (sym next) h

  -- Where every identity has one entry among the types and every type id resolves, a program may choose
  -- serializers and serialize in any order: its symbols are those it began with after some number of
  -- purges, every type id still resolves, and no call of `Serialize` logs that type ids are missing.
  pub Reach-serialize :
      (u : Usym) (d e : Disk) (p : Program l hash grow) (output : Text) (o : Outcome l hash grow)
      → Distinct u.type_symbols
      → verify_type_ids u ≡ true
      → Reach u d p e
      → serialize l hash grow output p e ≡ some o
      → IsPurged u o.program.usym × (o.critical ≡ false)
  Reach-serialize u d e p output o distinct verified reach ran =
      serialize-IsPurged u distinct output p e o ran
        (Reach-IsPurged u d e p distinct verified reach)
