-- ===== src/ReCore/Dialogue/Path.antt =====
-- The path that the dialogue returns, in its array of 256 bytes.
use universal_symbols.Prelude.{
  drop_all, ℕ, zero, suc, ◌-◌, ◌≤◌, ◌<◌, ◌≡◌, refl, true, false, Option, none, some, List, [], ◌∷◌,
  ◌++◌, ltb, leb, if◌then◌else◌, arith, length, drop, take, All, length-take, length-append,
  Bool-cases, inl, inr, append-nil,
}
use universal_symbols.ReCore.Windows.{Ending, overwrite, overwrite_fits, c_string, c_string-append}
use universal_symbols.ReCore.Dialogue.{Shell, Call, wcstombs, read_name}

-- The converted characters, without a zero among them.
abbrev pub IsPlain : (ℕ → Option (List ℕ)) → ℕ → Type 0
IsPlain narrow c = (0 < c) × (narrow c ≡ some (c ∷ []))

c_string-zero : (s t : List ℕ) → All (λ c. 0 < c) s → c_string (s ++ (0 ∷ t)) ≡ some s
unfolding c_string
c_string-zero [] t h = refl
c_string-zero (zero ∷ s) t h = absurd (omega (arith, h.0))
c_string-zero (suc c ∷ s) t h = rw (c_string-zero s t h.1) refl

c_string-none : (s : List ℕ) → All (λ c. 0 < c) s → c_string s ≡ none
unfolding c_string
c_string-none [] h = refl
c_string-none (zero ∷ s) h = absurd (omega (arith, h.0))
c_string-none (suc c ∷ s) h = rw (c_string-none s h.1) refl

All-positive :
    (narrow : ℕ → Option (List ℕ)) (s : List ℕ) → All (IsPlain narrow) s → All (λ c. 0 < c) s
All-positive narrow [] h = tt
All-positive narrow (c ∷ s) h = (h.0.0, All-positive narrow s h.1)

All-take : {A : Type 0} (P : A → Type 0) (n : ℕ) (xs : List A) → All P xs → All P (take n xs)
All-take P zero xs h = tt
All-take P (suc n) [] h = tt
All-take P (suc n) (x ∷ xs) h = (h.0, All-take P n xs h.1)

not_less : (a b : ℕ) → ltb a b ≡ false → b ≤ a
not_less a b h = ground arith

module _ (shell : Shell) where
  wcstombs_fits :
      (limit : ℕ) (wide : List ℕ)
      → All (IsPlain shell.narrow) wide
      → length wide < limit
      → wcstombs shell limit wide ≡ wide ++ (0 ∷ [])
  unfolding wcstombs
  wcstombs_fits limit [] h less = ground arith
  wcstombs_fits limit (c ∷ wide) h less =
      let rest = wcstombs_fits (limit - 1) wide h.1 (omega arith) in
      let room : leb 1 limit ≡ true = ground arith in simp (wcstombs, h.0.1, rest, room)

  wcstombs_cut :
      (limit : ℕ) (wide : List ℕ)
      → All (IsPlain shell.narrow) wide
      → limit ≤ length wide
      → wcstombs shell limit wide ≡ take limit wide
  unfolding wcstombs
  wcstombs_cut zero [] h less = refl
  wcstombs_cut (suc limit) [] h less = absurd (omega arith)
  wcstombs_cut zero (c ∷ wide) h less = simp (wcstombs, h.0.1)
  wcstombs_cut (suc limit) (c ∷ wide) h less =
      let rest = wcstombs_cut limit wide h.1 (omega arith) in
      let room : leb 1 (suc limit) ≡ true = ground arith in
      let one : suc limit - 1 ≡ limit = omega arith in simp (wcstombs, h.0.1, room, one, rest)

  -- Where the locale makes one byte of each character, the path is returned as it is when it is shorter
  -- than the array of 256 bytes; a longer one fills the array and leaves it without a zero, so that the
  -- assignment to the string reads behind it.
  pub read_name_lem :
      (wide : List ℕ) (calls : List Call)
      → shell.display_name ≡ some wide
      → All (IsPlain shell.narrow) wide
      → length shell.stack ≡ 256
      → read_name shell calls ≡ (
          if ltb (length wide) 256
          then Ending.returned wide ((calls ++ (Call.name_got ∷ [])) ++ (Call.name_freed ∷ []))
          else Ending.invalid (calls ++ (Call.name_got ∷ [])))
  unfolding read_name
  read_name_lem wide calls named plain size = elim (Bool-cases (ltb (length wide) 256)) [
    | inl e ↦
        let written = wcstombs_fits 256 wide plain (ground arith) in
        let fits : length (wide ++ (0 ∷ [])) ≤ length shell.stack =
          ground (arith, length-append wide (0 ∷ []), size, e) in
        let text : c_string (overwrite (wcstombs shell 256 wide) shell.stack) ≡ some wide =
          rw (written, overwrite_fits (wide ++ (0 ∷ [])) shell.stack fits)
            (c_string-append (wide ++ (0 ∷ [])) (drop (length (wide ++ (0 ∷ []))) shell.stack) wide
              (c_string-zero wide [] (All-positive shell.narrow wide plain))) in
        simp (read_name, named, text, e)
    | inr e ↦
        let written = wcstombs_cut 256 wide plain (not_less (length wide) 256 e) in
        let full : length (take 256 wide) ≡ 256 =
          omega (arith, length-take 256 wide, not_less (length wide) 256 e) in
        let behind : drop (length (take 256 wide)) shell.stack ≡ [] =
          rw full (drop_all 256 shell.stack (omega (arith, size))) in
        let text : c_string (overwrite (wcstombs shell 256 wide) shell.stack) ≡ none =
          rw
            (
              written,
              overwrite_fits (take 256 wide) shell.stack (omega (arith, full, size)),
              behind,
              append-nil (take 256 wide),
            )
            (c_string-none (take 256 wide)
              (All-take (λ c. 0 < c) 256 wide (All-positive shell.narrow wide plain))) in
        simp (read_name, named, text, e)
  ]
