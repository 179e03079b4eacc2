-- ===== src/Dia/Build.antt =====
-- The lists of types and functions, the header, and the whole of `CreateUsymFromFile`. Logging is left
-- out.
use universal_symbols.Prelude.{
  ℕ, ◌+◌, Bool, true, false, ◌&&◌, ◌==◌, List, [], ◌∷◌, ◌++◌, Option, none, some, if◌then◌else◌,
  ltb, get_or,
}
use universal_symbols.Prelude.Map.{find, contains, put}
use universal_symbols.Usym
use universal_symbols.Usym.{
  OriginalFormat, Architecture, Header, FunctionSymbol, CallingConvention, Usym, new_function,
}
use universal_symbols.Dia.{Dia, Handle, SymTag, BasicType, CallKind, Machine}
use universal_symbols.Dia.Names.{get_name_from_symbol}
use universal_symbols.Dia.Run.{World, Outcome, Run, ◌then_do◌, types}
use universal_symbols.Dia.Create.{Make, create_type_symbol}

unfoldable pub calling_convention : CallKind → CallingConvention
calling_convention CallKind.near_c = CallingConvention.near_c
calling_convention CallKind.near_fast = CallingConvention.near_fast
calling_convention CallKind.near_std = CallingConvention.near_std
calling_convention CallKind.near_sys = CallingConvention.near_sys
calling_convention CallKind.thiscall = CallingConvention.thiscall
calling_convention CallKind.clrcall = CallingConvention.clr_call
calling_convention CallKind.other = CallingConvention.unknown

unfoldable pub architecture : Machine → Architecture
architecture Machine.i386 = Architecture.x86
architecture Machine.amd64 = Architecture.x86_64
architecture Machine.arm = Architecture.arm32
architecture Machine.arm64 = Architecture.arm64
architecture Machine.other = Architecture.unknown

module _ (dia : Dia) (global_scope : Handle) where
  unfoldable pub build_header : Header → Header
  unfolding architecture
  build_header header = record header {
    original_format = OriginalFormat.pdb;
    architecture = elim (dia.machine_type global_scope) [
      | none ↦ header.architecture
      | some machine ↦ architecture machine
    ];
  }

  -- A base type `btNoType`; where the calls fail, the zeros stay.
  unfoldable pub is_no_type : Handle → Bool
  is_no_type type = elim (dia.sym_tag type) [
    | some SymTag.base_type ↦ elim (get_or (dia.base_type type) BasicType.no_type) [
      | BasicType.no_type ↦ true
      | _ ↦ false
    ]
    | _ ↦ false
  ]

  module _ (make : Make) where
    unfoldable pub create_types : List Handle → Run Unit
    create_types [] w = Outcome.done w tt
    create_types (h ∷ hs) w = make (some h) w then_do λ w1 created. create_types hs w1

    unfoldable pub build_type_list : SymTag → Run Unit
    unfolding create_types
    build_type_list tag w = elim (dia.find_children global_scope tag) [
      | none ↦ Outcome.done w tt
      | some (count, hs) ↦ create_types hs w
    ]

    -- The type is made where it is not there yet, and the result only logged.
    unfoldable pub make_missing : ℕ → Handle → Run Unit
    make_missing id type w =
        if contains id (types w)
        then Outcome.done w tt
        else make (some type) w then_do λ w1 created. Outcome.done w1 tt

    unfoldable pub build_return_type : Handle → FunctionSymbol → Run FunctionSymbol
    unfolding make_missing
    build_return_type function_type f w = elim (dia.type function_type) [
      | some (some type) ↦
          let id = get_or (dia.sym_index_id type) f.return_type_id in
          make_missing (get_or (dia.sym_index_id type) 0) type w then_do λ w1 u.
          Outcome.done w1 (record f { return_type_id = id })
      | _ ↦ Outcome.done w f
    ]

    unfoldable pub build_this : Handle → FunctionSymbol → Run FunctionSymbol
    unfolding make_missing
    build_this function_type f w = elim (dia.object_pointer_type function_type) [
      | some (some this) ↦
          let id = get_or (dia.sym_index_id this) 0 in
          make_missing id this w then_do λ w1 u.
          Outcome.done w1 (record f { argument_type_ids = f.argument_type_ids ++ (id ∷ []) })
      | _ ↦ Outcome.done w f
    ]

    -- A first argument of no type is skipped, and the position stays.
    unfoldable pub build_arguments : ℕ → List Handle → FunctionSymbol → Run FunctionSymbol
    unfolding make_missing is_no_type
    build_arguments position [] f w = Outcome.done w f
    build_arguments position (argument ∷ arguments) f w = elim (get_or (dia.type argument) none) [
      | none ↦ Outcome.null_access
      | some type ↦
          let skipped = is_no_type type && (position == 0) in
          let id = get_or (dia.sym_index_id type) 0 in
          let f1 =
            if skipped
            then f
            else record f { argument_type_ids = f.argument_type_ids ++ (id ∷ []) } in
          let made = if skipped then Outcome.done w tt else make_missing id type w in
          made then_do λ w1 u.
          build_arguments (if skipped then position else position + 1) arguments f1 w1
    ]

    unfoldable pub build_all_arguments : Handle → FunctionSymbol → Run FunctionSymbol
    unfolding build_this build_arguments
    build_all_arguments function_type f w =
        if ltb 0 f.argument_count
        then (build_this function_type f w then_do λ w1 f1.
            elim (dia.find_children function_type SymTag.function_arg_type) [
              | none ↦ Outcome.done w1 f1
              | some (count, hs) ↦ build_arguments 0 hs f1 w1
            ])
        else Outcome.done w f

    -- What the function's type and the function itself still answer.
    unfoldable pub build_rest : Handle → Handle → FunctionSymbol → FunctionSymbol
    unfolding calling_convention
    build_rest h function_type f = record f {
      calling_convention = elim (dia.calling_convention function_type) [
        | none ↦ f.calling_convention
        | some kind ↦ calling_convention kind
      ];
      virtual_address = get_or (dia.virtual_address h) f.virtual_address;
    }

    unfoldable pub build_typed_function : Handle → Handle → FunctionSymbol → Run FunctionSymbol
    unfolding build_return_type build_all_arguments build_rest
    build_typed_function h function_type f w = build_return_type function_type f w then_do λ w1 f1.
        let f2 = record f1 {
          argument_count = get_or (dia.count function_type) f1.argument_count;
        } in
        build_all_arguments function_type f2 w1 then_do λ w2 f3.
        Outcome.done w2 (build_rest h function_type f3)

    -- Through the reference into `functionSymbols`: an entry that is there is gone on with. Without a
    -- type of the function it keeps what was there, but for identity and name.
    unfoldable pub build_function : Handle → Run FunctionSymbol
    unfolding get_name_from_symbol build_typed_function
    build_function h w =
        let id = get_or (dia.sym_index_id h) 0 in
        let f = record (get_or (find id w.usym.function_symbols) new_function) {
          id = id;
          name = get_name_from_symbol dia h;
        } in
        elim (get_or (dia.type h) none) [
          | none ↦ Outcome.done w f
          | some function_type ↦ build_typed_function h function_type f w
        ]

    unfoldable pub put_function : FunctionSymbol → World → World
    put_function f w = record w {
      usym = record w.usym { function_symbols = put f.id f w.usym.function_symbols };
    }

    unfoldable pub build_functions : List Handle → Run Unit
    unfolding build_function put_function
    build_functions [] w = Outcome.done w tt
    build_functions (h ∷ hs) w =
        build_function h w then_do λ w1 f. build_functions hs (put_function f w1)

    unfoldable pub build_function_list : Run Unit
    unfolding build_functions
    build_function_list w = elim (dia.find_children global_scope SymTag.function) [
      | none ↦ Outcome.done w tt
      | some (count, hs) ↦ build_functions hs w
    ]

    -- `CreateUsymFromFile` between `InitializeDia` and `Release`.
    unfoldable pub build_usym : Run Unit
    unfolding build_header build_type_list build_function_list
    build_usym w =
        let started = record w {
          usym = record Usym.new { header = build_header Usym.new.header };
        } in
        build_type_list SymTag.base_type started then_do λ w1 u1.
        build_type_list SymTag.udt w1 then_do λ w2 u2.
        build_type_list SymTag.enum w2 then_do λ w3 u3.
        build_type_list SymTag.typedef w3 then_do λ w4 u4.
        build_type_list SymTag.pointer_type w4 then_do λ w5 u5. build_function_list w5

-- What `InitializeDia` reaches: it throws, which ends in `nullopt`, or it opens the file.
pub data Session : Type 0 where
  failed : Session
  opened : Dia → Handle → Session

-- An exception on the way is caught, and the symbols built so far are dropped.
unfoldable pub create_usym_from_file : ℕ → Session → Run (Option Usym)
unfolding build_usym create_type_symbol
create_usym_from_file fuel Session.failed w = Outcome.done w none
create_usym_from_file fuel (Session.opened dia global_scope) w =
    elim (build_usym dia global_scope (create_type_symbol dia fuel) w) [
      | Outcome.done w1 u ↦ Outcome.done w1 (some w1.usym)
      | Outcome.thrown w1 ↦ Outcome.done w1 none
      | Outcome.null_access ↦ Outcome.null_access
      | Outcome.out_of_fuel ↦ Outcome.out_of_fuel
    ]
