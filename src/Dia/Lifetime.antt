-- ===== src/Dia/Lifetime.antt =====
-- `InitializeDia` and `Release` of DiaInterface.cpp: the three static pointers, and the calls of
-- `CoInitialize` and `CoUninitialize`. The processor is run between the two.
pub mod Closed
use universal_symbols.Prelude.{ℕ, ◌+◌, Bool, true, false, Option, none, some, if◌then◌else◌}
use universal_symbols.Usym.{Usym}
use universal_symbols.Dia.{Dia, Handle}
use universal_symbols.Dia.Run.{World, Outcome}
use universal_symbols.Dia.Build.{Session, create_usym_from_file}

-- Which pointers are set, how often `CoInitialize` and `CoUninitialize` were called, and how many
-- objects were lost because a pointer that was set was written over.
pub record Held : Type 0 where
  pub session : Bool
  pub data_source : Bool
  pub global_scope : Bool
  pub entered : ℕ
  pub left : ℕ
  pub lost : ℕ

-- Whether the calls of `InitializeDia` succeed. What `CoInitialize` returns is not looked at.
pub record Opening : Type 0 where
  pub create : Bool
  pub load : Bool
  pub open_session : Bool
  pub get_scope : Option (Dia × Handle)

abbrev pub set_over : Bool → ℕ → ℕ
set_over was lost = if was then lost + 1 else lost

unfoldable pub initialize_dia : Opening → Held → Held × Session
initialize_dia o h =
    let h1 = record h { entered = h.entered + 1 } in
    let h2 = record h1 { data_source = true; lost = set_over h1.data_source h1.lost } in
    let h3 = record h2 { session = true; lost = set_over h2.session h2.lost } in
    let h4 = record h3 { global_scope = true; lost = set_over h3.global_scope h3.lost } in
    if o.create
    then (if o.load
        then (if o.open_session
            then (elim o.get_scope [
              | none ↦ (h3, Session.failed)
              | some (dia, scope) ↦ (h4, Session.opened dia scope)
            ])
            else (h2, Session.failed))
        else (h2, Session.failed))
    else (h1, Session.failed)

unfoldable pub release : Held → Held
release h = record h {
  session = false;
  data_source = false;
  global_scope = false;
  left = h.left + 1;
}

-- `CreateUsymFromFile` releases where it returns and where it catches an exception; a read through a
-- null pointer is neither. No exception leaves it.
unfoldable pub create_and_release : ℕ → Opening → World → Held → Outcome (Option Usym) × Held
unfolding initialize_dia release create_usym_from_file
create_and_release fuel o w h =
    let (h1, s) = initialize_dia o h in
    elim (create_usym_from_file fuel s w) [
      | Outcome.done w1 u ↦ (Outcome.done w1 u, release h1)
      | Outcome.thrown w1 ↦ (Outcome.thrown w1, h1)
      | Outcome.null_access ↦ (Outcome.null_access, h1)
      | Outcome.out_of_fuel ↦ (Outcome.out_of_fuel, h1)
    ]
