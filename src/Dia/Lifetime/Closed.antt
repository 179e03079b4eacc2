-- ===== src/Dia/Lifetime/Closed.antt =====
-- The processor gives back what it holds.
use universal_symbols.Prelude.{
  ℕ, ◌+◌, ◌*◌, ◌<◌, ◌≡◌, refl, Bool, true, false, ◌&&◌, List, Option, none, some, is_some, length,
  if◌then◌else◌, arith,
}
use universal_symbols.Usym.{Usym}
use universal_symbols.Dia.{Dia, Handle}
use universal_symbols.Dia.Run.{World, Outcome}
use universal_symbols.Dia.Build.{create_usym_from_file}
use universal_symbols.Dia.Documented.{IsDia}
use universal_symbols.Dia.Verified.{create_usym_from_file-IsBuilt}
use universal_symbols.Dia.Lifetime.{
  Held, Opening, set_over, initialize_dia, release, create_and_release,
}

-- No pointer is set, `CoUninitialize` was called as often as `CoInitialize`, and no object was lost.
pub record IsClosed (h : Held) : Type 0 where
  pub session : h.session ≡ false
  pub data_source : h.data_source ≡ false
  pub global_scope : h.global_scope ≡ false
  pub balanced : h.entered ≡ h.left
  pub kept : h.lost ≡ 0

release-IsClosed :
    (h h1 : Held)
    → IsClosed h
    → h1.entered ≡ h.entered + 1
    → h1.left ≡ h.left
    → h1.lost ≡ 0
    → IsClosed (release h1)
unfolding release
release-IsClosed h h1 c entered left kept = record {
  session = refl;
  data_source = refl;
  global_scope = refl;
  balanced = omega (arith, c.balanced, entered, left);
  kept = kept;
}

-- From a closed state, no pointer is written over while it is set.
source_kept : (h : Held) → IsClosed h → set_over h.data_source h.lost ≡ 0
source_kept h c = ground (arith, c.data_source, c.kept)

session_kept : (h : Held) → IsClosed h → set_over h.session (set_over h.data_source h.lost) ≡ 0
session_kept h c = ground (arith, c.session, source_kept h c)

scope_kept :
    (h : Held)
    → IsClosed h
    → set_over h.global_scope (set_over h.session (set_over h.data_source h.lost)) ≡ 0
scope_kept h c = ground (arith, c.global_scope, session_kept h c)

created_and_released :
    (fuel : ℕ) (o : Opening) (w : World) (h : Held) (w1 : World) (u : Option Usym)
    → create_usym_from_file fuel (initialize_dia o h).1 w ≡ Outcome.done w1 u
    → create_and_release fuel o w h ≡ (Outcome.done w1 u, release (initialize_dia o h).0)
unfolding create_and_release
created_and_released fuel o w h w1 u e = rw (create_and_release, e) refl

-- Which of the calls succeed.
abbrev pub attempt : Dia → Handle → Bool → Bool → Bool → Bool → Opening
attempt dia scope create load open_session scoped = record {
  create = create;
  load = load;
  open_session = open_session;
  get_scope = if scoped then some (dia, scope) else none;
}

-- Where the session opens, it is one of a debug interface that behaves as documented, and the fuel is
-- enough for it; whichever call fails: the processor ends, with symbols exactly when every call
-- succeeds, and from a closed state it leaves a closed state: the three static pointers are not set, and
-- `CoUninitialize` was called as often as `CoInitialize`.
pub create_and_release-IsClosed :
    (dia : Dia) (scope : Handle) (ids : List ℕ) (depth : ℕ) (rank : Handle → ℕ)
    → IsDia dia ids depth rank
    → (fuel : ℕ) → length ids * (depth + 1) + depth < fuel
    → (create load open_session scoped : Bool) (w : World) (h : Held) → IsClosed h
    → (w1 : World) × (u : Option Usym) × (h1 : Held) × (create_and_release fuel
          (attempt dia scope create load open_session scoped)
          w
          h
        ≡ (Outcome.done w1 u, h1))
      × (is_some u ≡ (create && (load && (open_session && scoped))))
      × IsClosed h1
unfolding create_and_release initialize_dia release create_usym_from_file
create_and_release-IsClosed dia scope ids depth rank doc fuel enough false load open_session scoped
      w h c =
    let h1 = (initialize_dia (attempt dia scope false load open_session scoped) h).0 in
    (w, none, release h1, refl, refl, release-IsClosed h h1 c refl refl c.kept)
create_and_release-IsClosed dia scope ids depth rank doc fuel enough true false open_session scoped
      w h c =
    let h1 = (initialize_dia (attempt dia scope true false open_session scoped) h).0 in
    (w, none, release h1, refl, refl, release-IsClosed h h1 c refl refl (source_kept h c))
create_and_release-IsClosed dia scope ids depth rank doc fuel enough true true false scoped w h c =
    let h1 = (initialize_dia (attempt dia scope true true false scoped) h).0 in
    (w, none, release h1, refl, refl, release-IsClosed h h1 c refl refl (source_kept h c))
create_and_release-IsClosed dia scope ids depth rank doc fuel enough true true true false w h c =
    let h1 = (initialize_dia (attempt dia scope true true true false) h).0 in
    (w, none, release h1, refl, refl, release-IsClosed h h1 c refl refl (session_kept h c))
create_and_release-IsClosed dia scope ids depth rank doc fuel enough true true true true w h c =
    let (w1, built) = create_usym_from_file-IsBuilt dia scope ids depth rank doc fuel enough w in
    let o = attempt dia scope true true true true in
    let h1 = (initialize_dia o h).0 in
    (
      w1,
      some w1.usym,
      release h1,
      created_and_released fuel o w h w1 (some w1.usym) built.ends,
      refl,
      release-IsClosed h h1 c refl refl (scope_kept h c),
    )
