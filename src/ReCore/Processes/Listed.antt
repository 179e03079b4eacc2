-- ===== src/ReCore/Processes/Listed.antt =====
-- The list of processes where the Windows API does what it documents.
use universal_symbols.Prelude.{
  ℕ, ◌+◌, ◌*◌, ◌-◌, ◌/◌, ◌≤◌, ◌<◌, ◌^◌, ◌%◌, none, Option-cases, ◌≡◌, refl, sym, ◌∙◌, some, List,
  [], ◌∷◌, ◌++◌, ◌==◌, if◌then◌else◌, length, get_elem?, drop, replicate, Text, All, arith,
  append_assoc, append-nil, length-append, length-replicate, inl, inr, Bool-cases,
}
use universal_symbols.ReCore.Windows.{Ending, overwrite, overwrite_fits, c_string, c_string-append}
use universal_symbols.ReCore.StringConverter.{is_surrogate}
use universal_symbols.ReCore.StringConverter.RoundTrip.{IsUnit, utf8_text, from_wide_lem}
use universal_symbols.ReCore.Processes.{
  Windows, Call, ℤ, pos, negsuc, to_int, to_dword, max_path, unknown, name_of, get_name_from_pid,
  list_from, get_list_of_processes,
}

-- Where the name of a module is written, it fits its array, ends with a zero and is a text of code points
-- below 2 ^ 16; the processes are not more than the array holds, each has a number of 32 bits, and four
-- bytes are needed for each.
pub record IsDocumented (windows : Windows) (label : ℕ → List ℕ) (ids : List ℕ) : Type 0 where
  pub named :
      (pid : ℕ) (name : List ℕ)
      → windows.base_name pid max_path ≡ some name
      → c_string name ≡ some (label pid)
  pub within :
      (pid : ℕ) (name : List ℕ)
      → windows.base_name pid max_path ≡ some name
      → length name ≤ max_path
  pub units : (pid : ℕ) → All IsUnit (label pid)
  pub fits : length ids ≤ 1024
  pub dwords : All (λ pid. pid < 2 ^ 32) ids
  pub listed : windows.processes ≡ some (ids, length ids * 4)

get_elem?-middle :
    {A : Type 0} (xs : List A) (x : A) (ys : List A)
    → get_elem? (xs ++ (x ∷ ys)) (length xs) ≡ some x
get_elem?-middle [] x ys = refl
get_elem?-middle (z ∷ xs) x ys = get_elem?-middle xs x ys

unknown-IsUnit : All IsUnit unknown
unfolding is_surrogate
unknown-IsUnit = ground arith

module _ (windows : Windows) (label : ℕ → List ℕ) where
  -- The name that is shown for a process.
  unfoldable pub label_of : ℕ → List ℕ
  label_of pid =
      if windows.can_open pid
      then (if windows.modules pid
          then elim (windows.base_name pid max_path) [ none ↦ unknown | some name ↦ label pid ]
          else unknown)
      else unknown

  -- The highest of 32 bits counts - 2 ^ 31.
  unfoldable pub signed : ℕ → ℤ
  signed pid = if pid / 2 ^ 31 == 0 then pos pid else negsuc (2 ^ 31 - (pid % 2 ^ 31 + 1))

  unfoldable pub shown : ℕ → Text
  shown pid = utf8_text (label_of pid)

  unfoldable pub all_shown : List ℕ → List (ℤ × Text)
  unfolding shown signed
  all_shown [] = []
  all_shown (pid ∷ ids) =
      let rest = all_shown ids in if pid == 0 then rest else (signed pid, shown pid) ∷ rest

  -- Each process that can be opened is closed before the next one is opened.
  unfoldable pub all_closed : List ℕ → List Call
  all_closed [] = []
  all_closed (pid ∷ ids) =
      let rest = all_closed ids in
      if pid == 0
      then rest
      else if windows.can_open pid
      then Call.opened pid ∷ Call.closed pid ∷ rest
      else rest

  module _ (ids : List ℕ) (d : IsDocumented windows label ids) where
    c_string-name_of : (pid : ℕ) → c_string (name_of windows pid) ≡ some (label_of pid)
    unfolding name_of label_of c_string replicate
    c_string-name_of pid = elim (Bool-cases (windows.can_open pid)) [
      | inl e ↦ elim (Bool-cases (windows.modules pid)) [
        | inl e1 ↦ elim (Option-cases (windows.base_name pid max_path)) [
          | inl failed ↦ rw (e, e1, failed) refl
          | inr (name, written) ↦
              rw
                (
                  e,
                  e1,
                  written,
                  overwrite_fits name (unknown ++ replicate (max_path - length unknown) 0)
                      (d.within pid name written),
                )
                (c_string-append name
                  (drop (length name) (unknown ++ replicate (max_path - length unknown) 0))
                  (label pid) (d.named pid name written))
        ]
        | inr e1 ↦ rw (e, e1) refl
      ]
      | inr e ↦ rw e refl
    ]

    label_of-IsUnit : (pid : ℕ) → All IsUnit (label_of pid)
    unfolding label_of
    label_of-IsUnit pid = elim (Bool-cases (windows.can_open pid)) [
      | inl e ↦ elim (Bool-cases (windows.modules pid)) [
        | inl e1 ↦ elim (Option-cases (windows.base_name pid max_path)) [
          | inl failed ↦ rw (e, e1, failed) unknown-IsUnit
          | inr (name, written) ↦ rw (e, e1, written) (d.units pid)
        ]
        | inr e1 ↦ rw (e, e1) unknown-IsUnit
      ]
      | inr e ↦ rw e unknown-IsUnit
    ]

    to_dword-to_int : (pid : ℕ) → pid < 2 ^ 32 → to_dword (to_int pid) ≡ pid
    unfolding to_dword to_int
    to_dword-to_int pid small = ground arith

    to_int-signed : (pid : ℕ) → pid < 2 ^ 32 → to_int pid ≡ signed pid
    unfolding to_int signed
    to_int-signed pid small = ground arith

    get_name_from_pid_at :
        (number : ℤ) (pid : ℕ) (calls : List Call)
        → to_dword number ≡ pid
        → get_name_from_pid windows number calls
          ≡ Ending.returned
              (number, shown pid)
              (if windows.can_open pid
                then calls ++ (Call.opened pid ∷ Call.closed pid ∷ [])
                else calls)
    unfolding get_name_from_pid shown
    get_name_from_pid_at number pid calls same =
        rw
          (
            get_name_from_pid,
            same,
            c_string-name_of pid,
            from_wide_lem windows.surrogate (label_of pid) (label_of-IsUnit pid),
            same,
          )
          refl

    get_name_from_pid_lem :
        (pid : ℕ) (calls : List Call)
        → pid < 2 ^ 32
        → get_name_from_pid windows (to_int pid) calls
          ≡ Ending.returned
              (signed pid, shown pid)
              (if windows.can_open pid
                then calls ++ (Call.opened pid ∷ Call.closed pid ∷ [])
                else calls)
    get_name_from_pid_lem pid calls small =
        rw (← to_int-signed pid small)
          (get_name_from_pid_at (to_int pid) pid calls (to_dword-to_int pid small))

    listed_at :
        (before xs after : List ℕ) (found : List (ℤ × Text)) (calls : List Call)
        → All (λ pid. pid < 2 ^ 32) xs
        → list_from windows (before ++ (xs ++ after)) (length before) (length xs) found calls
          ≡ Ending.returned (found ++ all_shown xs) (calls ++ all_closed xs)
    unfolding list_from all_shown all_closed
    listed_at before [] after found calls small =
        sym (λ i. Ending.returned (append-nil found i) (append-nil calls i))
    listed_at before (x ∷ xs) after found calls small =
        let whole = before ++ (x ∷ (xs ++ after)) in
        let here : get_elem? whole (length before) ≡ some x =
          get_elem?-middle before x (xs ++ after) in
        let shift : (before ++ (x ∷ [])) ++ (xs ++ after) ≡ whole =
          append_assoc before (x ∷ []) (xs ++ after) in
        let size : length (before ++ (x ∷ [])) ≡ length before + 1 =
          omega (arith, length-append before (x ∷ [])) in
        let next : (f : List (ℤ × Text)) (c : List Call)
            → list_from windows whole (length before + 1) (length xs) f c
              ≡ Ending.returned (f ++ all_shown xs) (c ++ all_closed xs) =
          λ f c. rw (← shift, ← size) (listed_at (before ++ (x ∷ [])) xs after f c small.1) in
        elim (Bool-cases (x == 0)) [
          | inl e ↦ rw (list_from, here, e) (next found calls)
          | inr e ↦
              let one = append_assoc found ((signed x, shown x) ∷ []) (all_shown xs) in
              elim (Bool-cases (windows.can_open x)) [
                | inl o ↦
                    let two =
                      append_assoc calls (Call.opened x ∷ Call.closed x ∷ []) (all_closed xs) in
                    rw (list_from, here, e, get_name_from_pid_lem x calls small.0, o)
                      (next (found ++ ((signed x, shown x) ∷ []))
                          (calls ++ (Call.opened x ∷ Call.closed x ∷ []))
                        ∙ λ i. Ending.returned (one i) (two i))
                | inr o ↦
                    rw (list_from, here, e, get_name_from_pid_lem x calls small.0, o)
                      (next (found ++ ((signed x, shown x) ∷ [])) calls ∙ λ i.
                        Ending.returned (one i) (calls ++ all_closed xs))
              ]
        ]

    -- Where the API lists at most 1024 processes with numbers of 32 bits, and the names of modules that it
    -- writes end with a zero within the array and are texts of code points below 2 ^ 16 that are no
    -- surrogates, the list holds the processes other than 0 in the order in which the API lists them. Each
    -- stands with its number as `int` has it, negative from 2 ^ 31 on, and with the name of its module, or
    -- `<unknown>` where the process cannot be opened, has no module or where GetModuleBaseName fails and
    -- leaves the array as it was; and each process that was opened is closed before the next one.
    pub get_list_of_processes_lem :
        get_list_of_processes windows ≡ Ending.returned (some (all_shown ids)) (all_closed ids)
    unfolding get_list_of_processes
    get_list_of_processes_lem =
        let after : List ℕ = drop (length ids) (replicate 1024 0) in
        let turns : length ids * 4 / 4 ≡ length ids = omega arith in
        let filled : overwrite ids (replicate 1024 0) ≡ ids ++ after =
          overwrite_fits ids (replicate 1024 0)
            (omega (arith, d.fits, length-replicate {A = ℕ} 1024 0)) in
        let all : list_from windows (overwrite ids (replicate 1024 0)) 0 (length ids * 4 / 4) [] []
            ≡ Ending.returned (all_shown ids) (all_closed ids) =
          rw (filled, turns) (listed_at [] ids after [] [] d.dwords) in
        simp (get_list_of_processes, d.listed, all)
