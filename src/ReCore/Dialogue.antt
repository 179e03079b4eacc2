-- ===== src/ReCore/Dialogue.antt =====
-- Libraries/RECore/win32/FileHandling_win32.cpp: the dialogue for opening a file. COM, the locale and
-- the vector's storage are a record of what their functions return.
pub mod Balanced
pub mod Path
pub mod Filters
use universal_symbols.Prelude.{
  ℕ, zero, suc, ◌+◌, ◌-◌, Bool, true, false, ◌&&◌, Option, none, some, List, [], ◌∷◌, ◌++◌, ◌==◌,
  ltb, leb, if◌then◌else◌, length, Text,
}
use universal_symbols.ReCore.Windows.{Ending, overwrite, c_string, ◌and_then◌}
use universal_symbols.ReCore.StringConverter.{to_wide}

-- Whether the calls of COM succeed, the wide characters of the path, what `wcstombs` makes of one, and
-- what `filePathBuf` holds before it is written. A string of the library is short where it keeps its
-- characters inside itself, and a full vector of a capacity grows to another.
pub record Shell : Type 0 where
  pub initialize : Bool
  pub create : Bool
  pub show : Bool
  pub result : Bool
  pub display_name : Option (List ℕ)
  pub narrow : ℕ → Option (List ℕ)
  pub stack : List ℕ
  pub is_short : List ℕ → Bool
  pub grow : ℕ → ℕ

-- `c_str()`: into an element of the vector, in the storage of that generation, or to the heap.
pub data Pointer : Type 0 where
  in_element : ℕ → Pointer
  on_heap : Pointer

-- COMDLG_FILTERSPEC
abbrev pub Spec : Type 0
Spec = Pointer × Pointer

pub data Call : Type 0 where
  initialized : Call
  uninitialized : Call
  created : Call
  released : Call
  types_set : List Spec → Call
  title_set : List ℕ → Call
  shown : Call
  item_got : Call
  item_released : Call
  name_got : Call
  name_freed : Call

-- `wideFilters`: how often its storage has moved.
pub record Storage : Type 0 where
  pub generation : ℕ
  pub capacity : ℕ
  pub size : ℕ

module _ (shell : Shell) where
  unfoldable pub emplace_back : Storage → Storage
  emplace_back v =
      if v.size == v.capacity
      then record {
        generation = v.generation + 1;
        capacity = shell.grow v.capacity;
        size = v.size + 1;
      }
      else record v { size = v.size + 1 }

  unfoldable pub c_str : Storage → List ℕ → Pointer
  c_str v wide = if shell.is_short wide then Pointer.in_element v.generation else Pointer.on_heap

  -- `none` where a conversion throws.
  unfoldable pub make_specs : List (Text × Text) → Storage → Option (List Spec × Storage)
  unfolding emplace_back c_str to_wide
  make_specs [] v = some ([], v)
  make_specs ((name, pattern) ∷ filters) v =
      let v1 = emplace_back v in
      elim (to_wide name) [
        | none ↦ none
        | some first ↦ elim (to_wide pattern) [
          | none ↦ none
          | some second ↦ elim (make_specs filters v1) [
            | none ↦ none
            | some (specs, v2) ↦ some ((c_str v1 first, c_str v1 second) ∷ specs, v2)
          ]
        ]
      ]

  -- Storage that the vector has left is freed.
  unfoldable pub is_live : ℕ → Pointer → Bool
  is_live generation (Pointer.in_element made) = made == generation
  is_live generation Pointer.on_heap = true

  unfoldable pub all_live : ℕ → List Spec → Bool
  unfolding is_live
  all_live generation [] = true
  all_live generation ((name, pattern) ∷ specs) =
      (is_live generation name && is_live generation pattern) && all_live generation specs

  -- The bytes that `wcstombs` writes, at most so many. It stops at a character that has no bytes in the
  -- locale, and before one whose bytes do not fit.
  unfoldable pub wcstombs : ℕ → List ℕ → List ℕ
  wcstombs limit [] = if ltb 0 limit then 0 ∷ [] else []
  wcstombs limit (c ∷ wide) = elim (shell.narrow c) [
    | none ↦ []
    | some bytes ↦
        let rest = wcstombs (limit - length bytes) wide in
        if leb (length bytes) limit then bytes ++ rest else []
  ]

  -- From `GetDisplayName` to `CoTaskMemFree`.
  unfoldable pub read_name : List Call → Ending Call Text
  unfolding wcstombs overwrite c_string
  read_name calls = elim shell.display_name [
    | none ↦ Ending.returned [] calls
    | some wide ↦
        let calls1 = calls ++ (Call.name_got ∷ []) in
        elim (c_string (overwrite (wcstombs 256 wide) shell.stack)) [
          | none ↦ Ending.invalid calls1
          | some path ↦ Ending.returned path (calls1 ++ (Call.name_freed ∷ []))
        ]
  ]

  -- From `GetResult` to the release of the item.
  unfoldable pub read_item : List Call → Ending Call Text
  unfolding read_name
  read_item calls =
      if shell.result
      then (read_name (calls ++ (Call.item_got ∷ [])) and_then λ path calls1.
          Ending.returned path (calls1 ++ (Call.item_released ∷ [])))
      else Ending.returned [] calls

  unfoldable pub set_file_types : Option (List Spec × Storage) → List Call → Ending Call Unit
  unfolding all_live
  set_file_types none calls = Ending.returned tt calls
  set_file_types (some (specs, v)) calls =
      if all_live v.generation specs
      then Ending.returned tt (calls ++ (Call.types_set specs ∷ []))
      else Ending.invalid calls

  unfoldable pub set_title : Option Text → List Call → Ending Call Unit
  unfolding to_wide
  set_title none calls = Ending.returned tt calls
  set_title (some name) calls = elim (to_wide name) [
    | none ↦ Ending.thrown calls
    | some wide ↦ Ending.returned tt (calls ++ (Call.title_set wide ∷ []))
  ]

  -- From the creation of the dialogue to its release.
  unfoldable pub run_dialogue :
      Option Text → Option (List Spec × Storage) → List Call → Ending Call Text
  unfolding set_file_types set_title read_item
  run_dialogue name specs calls =
      if shell.create
      then (set_file_types specs (calls ++ (Call.created ∷ [])) and_then λ done calls1.
          set_title name calls1 and_then λ done1 calls2.
          (let calls3 = calls2 ++ (Call.shown ∷ []) in
            if shell.show then read_item calls3 else Ending.returned [] calls3)
          and_then λ path calls4. Ending.returned path (calls4 ++ (Call.released ∷ [])))
      else Ending.returned [] calls

  unfoldable pub make_filters : Option (List (Text × Text)) → Option (Option (List Spec × Storage))
  unfolding make_specs
  make_filters none = some none
  make_filters (some filters) =
      elim (make_specs filters (record { generation = 0; capacity = 0; size = 0 })) [
        | none ↦ none
        | some made ↦ some (some made)
      ]

  unfoldable pub open_file_dialogue : Option Text → Option (List (Text × Text)) → Ending Call Text
  unfolding make_filters run_dialogue
  open_file_dialogue name filters = elim (make_filters filters) [
    | none ↦ Ending.thrown []
    | some specs ↦
        if shell.initialize
        then (run_dialogue name specs (Call.initialized ∷ []) and_then λ path calls.
            Ending.returned path (calls ++ (Call.uninitialized ∷ [])))
        else Ending.returned [] []
  ]
