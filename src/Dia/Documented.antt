-- ===== src/Dia/Documented.antt =====
-- What the debug interface documents, as far as the results rely on it, and what a run promises.
use universal_symbols.Prelude.{ℕ, ◌≤◌, ◌<◌, ◌^◌, ◌≡◌, ◌≢◌, refl, ◌∙◌, true, List, none, some, All}
use universal_symbols.Prelude.Map.{Map}
use universal_symbols.Usym.{TypeSymbol, FunctionSymbol}
use universal_symbols.Dia.{Dia, Handle, SymTag}
use universal_symbols.Dia.Run.{World, Outcome, ◌then_do◌, types}
use universal_symbols.Dia.Growth.{Sub, Sub-trans, Sub-refl, Closed, member}

-- Symbols have a tag, and the identities of a file are finitely many (`ids`). A type that is asked for
-- with success is there. The types that typedefs stand for are of smaller rank, so that typedefs end.
-- The children of a symbol have the tag that was asked for, and an argument of a function has a type.
-- The number of the members of a symbol is not negative.
pub record IsDia (dia : Dia) (ids : List ℕ) (depth : ℕ) (rank : Handle → ℕ) : Type 0 where
  pub tagged : (h : Handle) → dia.sym_tag h ≢ none
  pub known : (h : Handle) (id : ℕ) → dia.sym_index_id h ≡ some id → member id ids ≡ true
  pub typed : (h : Handle) → dia.type h ≢ some none
  pub rank_bound : (h : Handle) → rank h ≤ depth
  pub typedef_rank :
      (h type : Handle)
      → dia.sym_tag h ≡ some SymTag.typedef
      → dia.type h ≡ some (some type)
      → rank type < rank h
  pub arguments :
      (h : Handle) (count : ℕ) (hs : List Handle)
      → dia.find_children h SymTag.function_arg_type ≡ some (count, hs)
      → All (λ a. dia.sym_tag a ≡ some SymTag.function_arg_type) hs
  pub argument_type :
      (h : Handle) → dia.sym_tag h ≡ some SymTag.function_arg_type → dia.type h ≢ none
  pub counted :
      (h : Handle) (count : ℕ) (hs : List Handle)
      → dia.find_children h SymTag.datum ≡ some (count, hs)
      → count < 2 ^ 31

abbrev pub functions : World → Map FunctionSymbol
functions w = w.usym.function_symbols

-- The run ends without a fault, keeps the entries, leaves no reference open, and its result has the
-- property.
pub record Ends {A : Type 0} (w : World) (o : Outcome A) (P : Map TypeSymbol → A → Type 0)
    : Type 0 where
  pub after : World
  pub result : A
  pub ends : o ≡ Outcome.done after result
  pub grows : Sub (types w) (types after)
  pub closed : Closed (types after)
  pub same_functions : functions after ≡ functions w
  pub holds : P (types after) result

pub Ends-done :
    {A : Type 0} (w : World) (a : A) (P : Map TypeSymbol → A → Type 0)
    → Closed (types w)
    → P (types w) a
    → Ends w (Outcome.done w a) P
Ends-done w a P c p = record {
  after = w;
  result = a;
  ends = refl;
  grows = Sub-refl (types w);
  closed = c;
  same_functions = refl;
  holds = p;
}

pub Ends-then_do :
    {A B : Type 0} (w : World) (o : Outcome A) (f : World → A → Outcome B)
    (P : Map TypeSymbol → A → Type 0) (Q : Map TypeSymbol → B → Type 0)
    → Ends w o P
    → ((w1 : World) (a : A)
        → Sub (types w) (types w1)
        → Closed (types w1)
        → P (types w1) a
        → Ends w1 (f w1 a) Q)
    → Ends w (o then_do f) Q
Ends-then_do w o f P Q first next =
    let w1 = first.after in
    let second = next w1 first.result first.grows first.closed first.holds in
    record {
      after = second.after;
      result = second.result;
      ends = rw (first.ends, second.ends) refl;
      grows = Sub-trans (types w) (types w1) (types second.after) first.grows second.grows;
      closed = second.closed;
      same_functions = second.same_functions ∙ first.same_functions;
      holds = second.holds;
    }

-- A weaker property of the result.
pub Ends-weaken :
    {A : Type 0} (w : World) (o : Outcome A) (P Q : Map TypeSymbol → A → Type 0) (r : Ends w o P)
    → (P (types r.after) r.result → Q (types r.after) r.result)
    → Ends w o Q
Ends-weaken w o P Q r weaker = record {
  after = r.after;
  result = r.result;
  ends = r.ends;
  grows = r.grows;
  closed = r.closed;
  same_functions = r.same_functions;
  holds = weaker r.holds;
}
