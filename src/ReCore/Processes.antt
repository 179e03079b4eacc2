-- ===== src/ReCore/Processes.antt =====
-- Libraries/RECore/win32/Processes_win32.cpp: the processes that run, and their names. The Windows API
-- is a record of what its functions return. A run ends with a value, with the exception of a
-- conversion, or with an access outside an array, and keeps the list of its calls.
pub mod Listed
use universal_symbols.Prelude.{
  ℕ, zero, suc, ◌+◌, ◌*◌, ◌/◌, Bool, Option, none, some, List, [], ◌∷◌, ◌++◌, map, ◌==◌,
  if◌then◌else◌, ◌-◌, ◌^◌, ltb, length, get_elem?, drop, replicate, take, Text,
}
use universal_symbols.ReCore.Windows.{Ending, overwrite, c_string, ◌and_then◌}
use universal_symbols.ReCore.StringConverter.{from_wide}

-- What the API answers. `modules` tells whether EnumProcessModules succeeds, `base_name` what
-- GetModuleBaseName writes into a buffer of a number of wide characters, `none` where it fails and leaves
-- the buffer as it is, and `processes` what
-- EnumProcesses writes and how many bytes it says it needed.
pub record Windows : Type 0 where
  pub can_open : ℕ → Bool
  pub modules : ℕ → Bool
  pub base_name : ℕ → ℕ → Option (List ℕ)
  pub processes : Option (List ℕ × ℕ)
  pub surrogate : ℕ → Option (List ℕ)

pub data Call : Type 0 where
  opened : ℕ → Call
  closed : ℕ → Call

pub data ℤ : Type 0 where
  pos negsuc : ℕ → ℤ

-- The conversions between `DWORD` and `int`, in two's complement: `negsuc n` is - n - 1.
unfoldable pub to_int : ℕ → ℤ
to_int n = if ltb n (2 ^ 31) then pos n else negsuc (2 ^ 32 - (n + 1))

unfoldable pub to_dword : ℤ → ℕ
to_dword (pos n) = n
to_dword (negsuc n) = 2 ^ 32 - (n + 1)

abbrev pub max_path : ℕ
max_path = 260

-- `TEXT("<unknown>")` in an array of `MAX_PATH` characters.
abbrev pub unknown : List ℕ
unknown = 60 ∷ 117 ∷ 110 ∷ 107 ∷ 110 ∷ 111 ∷ 119 ∷ 110 ∷ 62 ∷ []

module _ (windows : Windows) where
  -- The name of the module, in the array. A failure of any of the calls leaves it as it is.
  unfoldable pub name_of : ℕ → List ℕ
  unfolding overwrite
  name_of pid =
      let name = unknown ++ replicate (max_path - length unknown) 0 in
      if windows.can_open pid
      then (if windows.modules pid
          then elim (windows.base_name pid max_path) [
            | none ↦ name
            | some written ↦ overwrite written name
          ]
          else name)
      else name

  unfoldable pub get_name_from_pid : ℤ → List Call → Ending Call (ℤ × Text)
  unfolding name_of c_string to_dword
  get_name_from_pid pid calls =
      let dword = to_dword pid in
      let calls1 =
        if windows.can_open dword
        then calls ++ (Call.opened dword ∷ Call.closed dword ∷ [])
        else calls in
      elim (c_string (name_of dword)) [
        | none ↦ Ending.invalid calls1
        | some wide ↦ elim (from_wide windows.surrogate wide) [
          | none ↦ Ending.thrown calls1
          | some name ↦ Ending.returned (pid, name) calls1
        ]
      ]

  -- The rest of the loop: so many turns, from an index of the array on.
  unfoldable pub list_from :
      List ℕ → ℕ → ℕ → List (ℤ × Text) → List Call → Ending Call (List (ℤ × Text))
  unfolding get_name_from_pid to_int
  list_from processes i zero found calls = Ending.returned found calls
  list_from processes i (suc turns) found calls = elim (get_elem? processes i) [
    | none ↦ Ending.invalid calls
    | some pid ↦
        (if pid == 0
          then Ending.returned found calls
          else get_name_from_pid (to_int pid) calls and_then λ one calls1.
              Ending.returned (found ++ (one ∷ [])) calls1)
        and_then λ found1 calls1. list_from processes (i + 1) turns found1 calls1
  ]

  -- An array of 1024 numbers of 4 bytes.
  unfoldable pub get_list_of_processes : Ending Call (Option (List (ℤ × Text)))
  unfolding list_from overwrite
  get_list_of_processes = elim windows.processes [
    | none ↦ Ending.returned none []
    | some (ids, needed) ↦
        list_from (overwrite ids (replicate 1024 0)) 0 (needed / 4) [] [] and_then λ found calls.
        Ending.returned (some found) calls
  ]
