-- ===== src/Tests/Windows.antt =====
-- The Windows code of RECore on three processes, and a dialogue with two filters.
use universal_symbols.Prelude.{
  ℕ, ◌≡◌, refl, true, none, some, List, [], ◌∷◌, ◌==◌, ltb, if◌then◌else◌, length, replicate, arith,
  ◌+◌,
}
use universal_symbols.ReCore.StringConverter.{from_wide, to_wide, is_surrogate, utf8_bytes}
use universal_symbols.ReCore.StringConverter.RoundTrip.{utf8_text, to_wide-from_wide}
use universal_symbols.ReCore.Windows.{Ending, c_string}
use universal_symbols.ReCore.Processes.{Windows, get_list_of_processes}
use universal_symbols.ReCore.Processes
use universal_symbols.ReCore.Processes.Listed.{
  signed, IsDocumented, label_of, all_shown, all_closed, get_list_of_processes_lem,
}
use universal_symbols.ReCore.Dialogue.{
  Shell, Call, Pointer, make_filters, read_name, open_file_dialogue,
}
use universal_symbols.ReCore.Dialogue.Balanced.{settle, open_file_dialogue-settle}
use universal_symbols.ReCore.Dialogue.Path.{read_name_lem}
use universal_symbols.ReCore.Dialogue.Filters.{filters_dangle}

-- An `a`, an `e` with an accent and a euro sign.
to_wide-from_wide_example :
    (s : List ℕ) × (from_wide (λ c. none) (97 ∷ 233 ∷ 8364 ∷ []) ≡ some s)
    × (to_wide s ≡ some (97 ∷ 233 ∷ 8364 ∷ []))
unfolding is_surrogate
to_wide-from_wide_example = to_wide-from_wide (λ c. none) (97 ∷ 233 ∷ 8364 ∷ []) (ground arith)

-- The smiling face, of four bytes, becomes a surrogate pair, which the other converter has no rule for.
smile : to_wide (240 ∷ 159 ∷ 152 ∷ 128 ∷ []) ≡ some (55357 ∷ 56832 ∷ [])
unfolding to_wide
smile = refl

smile_back : from_wide (λ c. none) (55357 ∷ 56832 ∷ []) ≡ none
unfolding from_wide
smile_back = refl

-- Only the process 4 can be opened.
abbrev three : Windows
three = record {
  can_open = λ pid. pid == 4;
  modules = λ pid. true;
  base_name = λ pid size. some (97 ∷ 0 ∷ []);
  processes = some (0 ∷ 4 ∷ 4_294_967_292 ∷ [], 12);
  surrogate = λ c. none;
}

three-IsDocumented : IsDocumented three (λ pid. 97 ∷ []) (0 ∷ 4 ∷ 4_294_967_292 ∷ [])
unfolding is_surrogate c_string
three-IsDocumented = record {
  named = λ pid name e. ground arith;
  within = λ pid name e. ground arith;
  units = λ pid. ground arith;
  fits = omega arith;
  dwords = omega arith;
  listed = refl;
}

get_list_of_processes_lem_example :
    get_list_of_processes three
    ≡ Ending.returned
        (some (
          (Processes.pos 4, 97 ∷ [])
          ∷ (Processes.negsuc 3, 60 ∷ 117 ∷ 110 ∷ 107 ∷ 110 ∷ 111 ∷ 119 ∷ 110 ∷ 62 ∷ [])
          ∷ []))
        (Processes.Call.opened 4 ∷ Processes.Call.closed 4 ∷ [])
unfolding all_shown signed all_closed utf8_text label_of utf8_bytes
get_list_of_processes_lem_example =
    get_list_of_processes_lem three (λ pid. 97 ∷ []) (0 ∷ 4 ∷ 4_294_967_292 ∷ []) three-IsDocumented

-- COM works, `b` is the path, and a string is short up to seven characters.
abbrev works : Shell
works = record {
  initialize = true;
  create = true;
  show = true;
  result = true;
  display_name = some (98 ∷ []);
  narrow = λ c. some (c ∷ []);
  stack = replicate 256 204;
  is_short = λ s. ltb (length s) 8;
  grow = λ n. n + 1;
}

open_file_dialogue-settle_example :
    settle
      (Call.initialized
        ∷ Call.created
        ∷ Call.title_set (111 ∷ [])
        ∷ Call.shown
        ∷ Call.item_got
        ∷ Call.name_got
        ∷ Call.name_freed
        ∷ Call.item_released
        ∷ Call.released
        ∷ Call.uninitialized
        ∷ [])
      []
    ≡ some []
unfolding open_file_dialogue replicate
open_file_dialogue-settle_example =
    open_file_dialogue-settle works (some (111 ∷ [])) none (98 ∷ [])
      (Call.initialized
        ∷ Call.created
        ∷ Call.title_set (111 ∷ [])
        ∷ Call.shown
        ∷ Call.item_got
        ∷ Call.name_got
        ∷ Call.name_freed
        ∷ Call.item_released
        ∷ Call.released
        ∷ Call.uninitialized
        ∷ [])
      refl

read_name_lem_example : read_name works [] ≡ (
    if ltb 1 256
    then Ending.returned (98 ∷ []) (Call.name_got ∷ Call.name_freed ∷ [])
    else Ending.invalid (Call.name_got ∷ []))
unfolding replicate
read_name_lem_example = read_name_lem works (98 ∷ []) [] refl ((omega arith, refl), tt) refl

filters_dangle_example :
    open_file_dialogue works none (some ((97 ∷ [], 42 ∷ []) ∷ (98 ∷ [], 42 ∷ []) ∷ []))
    ≡ Ending.invalid (Call.initialized ∷ Call.created ∷ [])
unfolding make_filters to_wide
filters_dangle_example =
    filters_dangle works none (97 ∷ []) (42 ∷ []) (97 ∷ []) (98 ∷ [], 42 ∷ []) []
      ((Pointer.in_element 1, Pointer.in_element 1)
        ∷ (Pointer.in_element 2, Pointer.in_element 2)
        ∷ [])
      (record { generation = 2; capacity = 2; size = 2 }) refl refl refl refl refl refl
