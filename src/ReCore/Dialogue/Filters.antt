-- ===== src/ReCore/Dialogue/Filters.antt =====
-- The filters that the dialogue is given: pointers into a vector that grows.
use mathlib.Core.Path.{subst}
use universal_symbols.Prelude.{
  ℕ, ◌≤◌, ◌≡◌, refl, sym, true, false, Option, none, some, List, [], ◌∷◌, ◌==◌, Text, arith,
}
use universal_symbols.ReCore.Windows.{Ending}
use universal_symbols.ReCore.StringConverter.{to_wide}
use universal_symbols.ReCore.Dialogue.{
  Shell, Spec, Storage, Call, Pointer, emplace_back, c_str, is_live, make_specs, all_live,
  set_file_types, run_dialogue, make_filters, open_file_dialogue,
}

-- Where the filters are made, the storage has moved so often.
abbrev IsLater : ℕ → Option (List Spec × Storage) → Type 0
IsLater n none = Unit
IsLater n (some (specs, v)) = n ≤ v.generation

abbrev IsDangling : Shell → Option (List Spec × Storage) → Type 0
IsDangling shell none = Unit
IsDangling shell (some (specs, v)) = all_live shell v.generation specs ≡ false

-- The same of the filters that the dialogue is given.
abbrev IsGiven : Shell → Option (Option (List Spec × Storage)) → Type 0
IsGiven shell none = Unit
IsGiven shell (some none) = Unit
IsGiven shell (some (some (specs, v))) = all_live shell v.generation specs ≡ false

IsGiven-IsDangling :
    (shell : Shell) (o : Option (List Spec × Storage))
    → IsDangling shell o
    → IsGiven shell (elim o [ none ↦ none | some made ↦ some (some made) ])
IsGiven-IsDangling shell none h = tt
IsGiven-IsDangling shell (some (specs, v)) h = h

after-Option :
    {A B : Type 0} (P : Option B → Type 0) (o : Option A) (f : A → Option B)
    → P none
    → ((a : A) → o ≡ some a → P (f a))
    → P (elim o [ none ↦ none | some a ↦ f a ])
after-Option P none f hn hf = hn
after-Option P (some a) f hn hf = hf a refl

IsLater-more :
    (n : ℕ) (spec : Spec) (o : Option (List Spec × Storage))
    → IsLater n o
    → IsLater n (elim o [ none ↦ none | some (specs, v) ↦ some (spec ∷ specs, v) ])
IsLater-more n spec none h = tt
IsLater-more n spec (some (specs, v)) h = h

IsDangling-more :
    (shell : Shell) (p : Pointer) (o : Option (List Spec × Storage))
    → IsLater 2 o
    → IsDangling shell
        (elim o [ none ↦ none | some (specs, v) ↦ some ((Pointer.in_element 1, p) ∷ specs, v) ])
unfolding all_live is_live
IsDangling-more shell p none h = tt
IsDangling-more shell p (some (specs, v)) h =
    let dead : (1 == v.generation) ≡ false = ground (arith, h) in rw dead refl

module _ (shell : Shell) where
  make_specs-IsLater :
      (n : ℕ) (filters : List (Text × Text)) (v : Storage)
      → n ≤ v.generation
      → IsLater n (make_specs shell filters v)
  unfolding make_specs emplace_back
  make_specs-IsLater n [] v h = h
  make_specs-IsLater n ((name, pattern) ∷ filters) v h =
      let later : n ≤ (emplace_back shell v).generation = ground (arith, h) in
      after-Option (IsLater n) (to_wide name) _ tt λ first e.
        after-Option (IsLater n) (to_wide pattern) _ tt λ second e1.
          IsLater-more n _ (make_specs shell filters (emplace_back shell v))
            (make_specs-IsLater n filters (emplace_back shell v) later)

  make_specs-IsDangling :
      (name pattern first : Text) (more : Text × Text) (filters : List (Text × Text))
      → shell.grow 0 ≡ 1
      → to_wide name ≡ some first
      → shell.is_short first ≡ true
      → IsDangling shell (
          make_specs shell
            ((name, pattern) ∷ more ∷ filters)
            (record { generation = 0; capacity = 0; size = 0 }))
  unfolding make_specs emplace_back c_str all_live is_live
  make_specs-IsDangling name pattern first more filters one wide short =
      let start : Storage = record { generation = 0; capacity = 0; size = 0 } in
      let v1 = emplace_back shell start in
      let v2 = emplace_back shell v1 in
      let full : (1 == shell.grow 0) ≡ true = rw one refl in
      let moved : 2 ≤ v2.generation = rw (emplace_back, full) (omega arith) in
      after-Option (IsDangling shell) (to_wide name) _ tt λ first1 e.
        let same : first1 ≡ first = ground (arith, wide, e) in
        let inside : c_str shell v1 first1 ≡ Pointer.in_element 1 = rw (same, short) refl in
        after-Option (IsDangling shell) (to_wide pattern) _ tt λ second e1.
          let later : IsLater 2 (make_specs shell (more ∷ filters) v1) =
            after-Option (IsLater 2) (to_wide more.0) _ tt λ third e2.
              after-Option (IsLater 2) (to_wide more.1) _ tt λ fourth e3.
                IsLater-more 2 _ (make_specs shell filters v2)
                  (make_specs-IsLater 2 filters v2 moved) in
          subst
            (λ p. IsDangling shell (elim (make_specs shell (more ∷ filters) v1) [
              | none ↦ none
              | some (specs, v) ↦ some ((p, c_str shell v1 second) ∷ specs, v)
            ]))
            (sym inside)
            (IsDangling-more shell (c_str shell v1 second) (make_specs shell (more ∷ filters) v1)
              later)

  -- The first filter's name is kept inside the first element of the vector where it is short. Where the
  -- vector first grows to one element, a second filter makes it move its elements, and the dialogue is given a pointer to storage that
  -- was freed.
  pub filters_dangle :
      (title : Option Text) (name pattern first : Text) (more : Text × Text)
      (filters : List (Text × Text)) (specs : List Spec) (v : Storage)
      → shell.grow 0 ≡ 1
      → to_wide name ≡ some first
      → shell.is_short first ≡ true
      → make_filters shell (some ((name, pattern) ∷ more ∷ filters)) ≡ some (some (specs, v))
      → shell.initialize ≡ true
      → shell.create ≡ true
      → open_file_dialogue shell title (some ((name, pattern) ∷ more ∷ filters))
        ≡ Ending.invalid (Call.initialized ∷ Call.created ∷ [])
  unfolding open_file_dialogue run_dialogue set_file_types make_filters
  filters_dangle title name pattern first more filters specs v one wide short made init create =
      let dangling = make_specs-IsDangling name pattern first more filters one wide short in
      let dead : all_live shell v.generation specs ≡ false = subst (IsGiven shell) made (
        IsGiven-IsDangling shell
          (make_specs shell ((name, pattern) ∷ more ∷ filters)
            (record { generation = 0; capacity = 0; size = 0 }))
          dangling) in
      simp (open_file_dialogue, made, init, run_dialogue, create, set_file_types, dead)
