-- ===== src/ReCore/Dialogue/Balanced.antt =====
-- What the dialogue acquires and releases.
use universal_symbols.Prelude.{
  ℕ, ◌≡◌, refl, Bool, true, false, Option, none, some, List, [], ◌∷◌, ◌++◌, ◌>>=◌, if◌then◌else◌,
  Text, arith, Option-cases, inl, inr,
}
use mathlib.Core.Path.{subst}
use universal_symbols.ReCore.Windows.{Ending, overwrite, c_string, ◌and_then◌}
use universal_symbols.ReCore.StringConverter.{to_wide}
use universal_symbols.ReCore.Dialogue.{
  Shell, Spec, Storage, Call, wcstombs, read_name, read_item, all_live, set_file_types, set_title,
  run_dialogue, make_filters, open_file_dialogue,
}

-- What has to be given back: COM, the dialogue, the item, its name.
pub data Resource : Type 0 where
  runtime : Resource
  dialogue : Resource
  item : Resource
  file_name : Resource

-- A resource is given back only when it was acquired last.
unfoldable settle_one : Call → List Resource → Option (List Resource)
settle_one Call.initialized held = some (Resource.runtime ∷ held)
settle_one Call.uninitialized (Resource.runtime ∷ held) = some held
settle_one Call.created held = some (Resource.dialogue ∷ held)
settle_one Call.released (Resource.dialogue ∷ held) = some held
settle_one (Call.types_set specs) held = some held
settle_one (Call.title_set wide) held = some held
settle_one Call.shown held = some held
settle_one Call.item_got held = some (Resource.item ∷ held)
settle_one Call.item_released (Resource.item ∷ held) = some held
settle_one Call.name_got held = some (Resource.file_name ∷ held)
settle_one Call.name_freed (Resource.file_name ∷ held) = some held
settle_one call held = none

-- What is held after a list of calls.
unfoldable pub settle : List Call → List Resource → Option (List Resource)
unfolding settle_one
settle [] held = some held
settle (call ∷ calls) held = settle_one call held >>= λ held1. settle calls held1

settle-append :
    (xs ys : List Call) (s t : List Resource)
    → settle xs s ≡ some t
    → settle (xs ++ ys) s ≡ settle ys t
unfolding settle
settle-append [] ys s t h = let same : s ≡ t = cc in rw same refl
settle-append (x ∷ xs) ys s t h = elim (Option-cases (settle_one x s)) [
  | inl e ↦ absurd (ground (arith, h, e))
  | inr (u, e) ↦ rw e (settle-append xs ys u t (rw e at h))
]

settle_then :
    (calls more : List Call) (held : List Resource)
    → settle calls [] ≡ some held
    → settle (calls ++ more) [] ≡ settle more held
settle_then calls more held h = settle-append calls more [] held h

-- A run that returns holds the given resources.
abbrev Holds : {A : Type 0} → List Resource → Ending Call A → Type 0
Holds held (Ending.returned a calls) = settle calls [] ≡ some held
Holds held (Ending.thrown calls) = Unit
Holds held (Ending.invalid calls) = Unit

Holds-and_then :
    {A B : Type 0} (held1 held2 : List Resource) (e : Ending Call A)
    (f : A → List Call → Ending Call B)
    → Holds held1 e
    → ((a : A) (calls : List Call) → settle calls [] ≡ some held1 → Holds held2 (f a calls))
    → Holds held2 (e and_then f)
Holds-and_then held1 held2 (Ending.returned a calls) f h next = next a calls h
Holds-and_then held1 held2 (Ending.thrown calls) f h next = tt
Holds-and_then held1 held2 (Ending.invalid calls) f h next = tt

Holds-if :
    {A : Type 0} (held : List Resource) (b : Bool) (x y : Ending Call A)
    → Holds held x
    → Holds held y
    → Holds held (if b then x else y)
Holds-if held true x y hx hy = hx
Holds-if held false x y hx hy = hy

Holds-Option :
    {A B : Type 0} (held : List Resource) (o : Option B) (x : Ending Call A) (f : B → Ending Call A)
    → Holds held x
    → ((b : B) → Holds held (f b))
    → Holds held (elim o [ none ↦ x | some b ↦ f b ])
Holds-Option held none x f hx hf = hx
Holds-Option held (some b) x f hx hf = hf b

module _ (shell : Shell) where
  read_name-Holds :
      (calls : List Call) (held : List Resource)
      → settle calls [] ≡ some held
      → Holds held (read_name shell calls)
  unfolding read_name settle settle_one
  read_name-Holds calls held h =
      let calls1 = calls ++ (Call.name_got ∷ []) in
      let got = settle_then calls (Call.name_got ∷ []) held h in
      let path : List ℕ → Ending Call Text = λ wide.
        elim (c_string (overwrite (wcstombs shell 256 wide) shell.stack)) [
          | none ↦ Ending.invalid calls1
          | some path ↦ Ending.returned path (calls1 ++ (Call.name_freed ∷ []))
        ] in
      Holds-Option held shell.display_name (Ending.returned [] calls) path h λ wide.
        Holds-Option held (c_string (overwrite (wcstombs shell 256 wide) shell.stack))
          (Ending.invalid calls1) (λ path. Ending.returned path (calls1 ++ (Call.name_freed ∷ [])))
          tt λ path. settle_then calls1 (Call.name_freed ∷ []) (Resource.file_name ∷ held) got

  read_item-Holds :
      (calls : List Call) (held : List Resource)
      → settle calls [] ≡ some held
      → Holds held (read_item shell calls)
  unfolding read_item settle settle_one
  read_item-Holds calls held h =
      let inside = Resource.item ∷ held in
      let calls1 = calls ++ (Call.item_got ∷ []) in
      Holds-if held shell.result _ (Ending.returned [] calls)
        (Holds-and_then inside held (read_name shell calls1)
          (λ path calls2. Ending.returned path (calls2 ++ (Call.item_released ∷ [])))
          (read_name-Holds calls1 inside (settle_then calls (Call.item_got ∷ []) held h))
          (λ path calls2 h2. settle_then calls2 (Call.item_released ∷ []) inside h2))
        h

  set_file_types-Holds :
      (specs : Option (List Spec × Storage)) (calls : List Call) (held : List Resource)
      → settle calls [] ≡ some held
      → Holds held (set_file_types shell specs calls)
  unfolding set_file_types settle settle_one
  set_file_types-Holds none calls held h = h
  set_file_types-Holds (some (specs, v)) calls held h =
      Holds-if held (all_live shell v.generation specs) _ (Ending.invalid calls)
        (settle_then calls (Call.types_set specs ∷ []) held h) tt

  set_title-Holds :
      (title : Option Text) (calls : List Call) (held : List Resource)
      → settle calls [] ≡ some held
      → Holds held (set_title shell title calls)
  unfolding set_title settle settle_one
  set_title-Holds none calls held h = h
  set_title-Holds (some title) calls held h =
      Holds-Option held (to_wide title) (Ending.thrown calls)
        (λ wide. Ending.returned tt (calls ++ (Call.title_set wide ∷ []))) tt
        λ wide. settle_then calls (Call.title_set wide ∷ []) held h

  run_dialogue-Holds :
      (title : Option Text) (specs : Option (List Spec × Storage)) (calls : List Call)
      (held : List Resource)
      → settle calls [] ≡ some held
      → Holds held (run_dialogue shell title specs calls)
  unfolding run_dialogue settle settle_one
  run_dialogue-Holds title specs calls held h =
      let inside = Resource.dialogue ∷ held in
      let calls1 = calls ++ (Call.created ∷ []) in
      Holds-if held shell.create _ (Ending.returned [] calls)
        (Holds-and_then inside held (set_file_types shell specs calls1) _
          (set_file_types-Holds specs calls1 inside (settle_then calls (Call.created ∷ []) held h))
          λ done calls2 h2.
            Holds-and_then inside held (set_title shell title calls2) _
              (set_title-Holds title calls2 inside h2)
              λ done1 calls3 h3.
                let calls4 = calls3 ++ (Call.shown ∷ []) in
                let h4 = settle_then calls3 (Call.shown ∷ []) inside h3 in
                Holds-and_then inside held
                  (if shell.show then read_item shell calls4 else Ending.returned [] calls4) _
                  (Holds-if inside shell.show (read_item shell calls4) (Ending.returned [] calls4)
                    (read_item-Holds calls4 inside h4) h4)
                  λ path calls5 h5. settle_then calls5 (Call.released ∷ []) inside h5)
        h

  open_file_dialogue-Holds :
      (title : Option Text) (filters : Option (List (Text × Text)))
      → Holds [] (open_file_dialogue shell title filters)
  unfolding open_file_dialogue settle settle_one
  open_file_dialogue-Holds title filters =
      Holds-Option [] (make_filters shell filters) (Ending.thrown []) _ tt λ specs.
        Holds-if [] shell.initialize _ (Ending.returned [] [])
          (Holds-and_then (Resource.runtime ∷ []) []
            (run_dialogue shell title specs (Call.initialized ∷ [])) _
            (run_dialogue-Holds title specs (Call.initialized ∷ []) (Resource.runtime ∷ []) refl)
            λ path calls h. settle_then calls (Call.uninitialized ∷ []) (Resource.runtime ∷ []) h)
          refl

  -- A run of the dialogue that returns has given back, in the reverse order, all that it acquired,
  -- whichever of the calls failed.
  pub open_file_dialogue-settle :
      (title : Option Text) (filters : Option (List (Text × Text))) (path : Text)
      (calls : List Call)
      → open_file_dialogue shell title filters ≡ Ending.returned path calls
      → settle calls [] ≡ some []
  open_file_dialogue-settle title filters path calls run =
      subst (Holds []) run (open_file_dialogue-Holds title filters)
