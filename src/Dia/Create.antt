-- ===== src/Dia/Create.antt =====
-- One symbol of a PDB to one type symbol. `make` stands for the calls of `CreateTypeSymbol` in the
-- functions that it calls itself. Logging is left out.
use universal_symbols.Prelude.{
  ℕ, zero, suc, ◌+◌, ◌%◌, ◌^◌, ltb, Bool, true, false, List, [], ◌∷◌, Option, none, some, ◌>>=◌,
  if◌then◌else◌, get_or,
}
use universal_symbols.Prelude.Map.{contains, put}
use universal_symbols.Usym.{FieldSymbol, TypeSymbol, TypeKind, new_field, new_type}
use universal_symbols.Dia.{Dia, Handle, SymTag, UdtKind}
use universal_symbols.Dia.Names.{
  get_name_from_symbol, get_base_name, pointer_name, sign_extended, set_anonymous_union_data,
}
use universal_symbols.Dia.Run.{World, Outcome, Run, ◌then_do◌, types, with_types, touch}

abbrev pub Make : Type 0
Make = Option Handle → Run Bool

module _ (dia : Dia) where
  unfoldable pub create_base_type_symbol : Handle → Option TypeSymbol
  unfolding get_base_name
  create_base_type_symbol h = do
    id ← dia.sym_index_id h
    base_type ← dia.base_type h
    size ← dia.length h
    some (record new_type {
      type = TypeKind.base;
      id = id;
      length = size;
      name = get_base_name base_type size;
    })

  -- The counter goes up before the length is asked for.
  unfoldable pub create_pointer_type_symbol : Handle → Run (Option TypeSymbol)
  unfolding pointer_name
  create_pointer_type_symbol h w = elim (dia.sym_index_id h) [
    | none ↦ Outcome.done w none
    | some id ↦
        let counter = (w.counter + 1) % 2 ^ 64 in
        Outcome.done (record w { counter = counter })
          (dia.length h >>= λ length. some (record new_type {
            type = TypeKind.pointer;
            id = id;
            name = pointer_name counter;
            length = length;
          }))
  ]

  unfoldable pub create_array_type_symbol : Handle → Option TypeSymbol
  unfolding get_name_from_symbol
  create_array_type_symbol h = do
    id ← dia.sym_index_id h
    length ← dia.length h
    some (record new_type {
      type = TypeKind.array;
      id = id;
      name = get_name_from_symbol dia h;
      length = length;
    })

  unfoldable pub udt_type : UdtKind → TypeKind
  udt_type UdtKind.struct = TypeKind.struct
  udt_type UdtKind.class = TypeKind.class
  udt_type UdtKind.union = TypeKind.union
  udt_type UdtKind.interface = TypeKind.interface
  udt_type UdtKind.other = TypeKind.unknown

  -- The symbol of a field, before its type is looked at: the type's handle and identity with it.
  unfoldable pub field_head : Handle → Option (Handle × FieldSymbol)
  unfolding get_name_from_symbol sign_extended
  field_head h = do
    id ← dia.sym_index_id h
    pointer ← dia.type h
    type ← pointer
    type_id ← dia.sym_index_id type
    some (
      type,
      record new_field {
        id = id;
        name = get_name_from_symbol dia h;
        offset = sign_extended (get_or (dia.offset h) 0);
        underlying_type_id = type_id;
      },
    )

  module _ (make : Make) where
    unfoldable pub create_field_symbol : Handle → Run (Option FieldSymbol)
    unfolding field_head
    create_field_symbol h w = elim (field_head h) [
      | none ↦ Outcome.done w none
      | some (type, f) ↦
          if contains f.underlying_type_id (types w)
          then Outcome.done w (some f)
          else make (some type) w then_do λ w1 created.
              Outcome.done w1 (if created then some f else none)
    ]

    -- A field that fails is an empty one.
    unfoldable pub create_fields : List Handle → Run (List FieldSymbol)
    unfolding create_field_symbol
    create_fields [] w = Outcome.done w []
    create_fields (h ∷ hs) w = create_field_symbol h w then_do λ w1 f.
        create_fields hs w1 then_do λ w2 fs. Outcome.done w2 (get_or f new_field ∷ fs)

    unfoldable pub has_unions : TypeKind → Bool
    has_unions TypeKind.union = false
    has_unions TypeKind.enum = false
    has_unions kind = true

    -- The count is a `LONG`, here as its 32 bits. Converted to `size_t`, a negative one is more than the
    -- `max_size` of a vector, and `reserve` throws std::length_error.
    unfoldable pub create_members_for_symbol : Handle → TypeSymbol → Run TypeSymbol
    unfolding create_fields has_unions set_anonymous_union_data sign_extended
    create_members_for_symbol h t w = elim (dia.find_children h SymTag.datum) [
      | none ↦ Outcome.done w t
      | some (count, hs) ↦
          if ltb count (2 ^ 31)
          then (create_fields hs w then_do λ w1 fs.
              let t1 = record t { field_count = sign_extended count; fields = fs } in
              Outcome.done w1 (if has_unions t.type then set_anonymous_union_data t1 else t1))
          else Outcome.thrown w
    ]

    unfoldable pub udt_head : Handle → Option TypeSymbol
    unfolding udt_type get_name_from_symbol
    udt_head h = do
      kind ← dia.udt_kind h
      id ← dia.sym_index_id h
      length ← dia.length h
      some (record new_type {
        type = udt_type kind;
        id = id;
        name = get_name_from_symbol dia h;
        length = length;
      })

    unfoldable pub enum_head : Handle → Option TypeSymbol
    unfolding get_name_from_symbol
    enum_head h = do
      id ← dia.sym_index_id h
      length ← dia.length h
      some (record new_type {
        type = TypeKind.enum;
        id = id;
        name = get_name_from_symbol dia h;
        length = length;
      })

    -- What follows the head of a structure or an enumeration.
    unfoldable pub with_members : Handle → Option TypeSymbol → Run (Option TypeSymbol)
    unfolding create_members_for_symbol
    with_members h none w = Outcome.done w none
    with_members h (some t) w =
        create_members_for_symbol h t w then_do λ w1 t1. Outcome.done w1 (some t1)

    unfoldable pub create_udt_symbol : Handle → Run (Option TypeSymbol)
    unfolding udt_head with_members
    create_udt_symbol h w = with_members h (udt_head h) w

    unfoldable pub create_enum_symbol : Handle → Run (Option TypeSymbol)
    unfolding enum_head with_members
    create_enum_symbol h w = with_members h (enum_head h) w

    unfoldable pub is_function_type : Option SymTag → Bool
    is_function_type none = false
    is_function_type (some SymTag.function_type) = true
    is_function_type (some tag) = false

    unfoldable pub typedef_of : Handle → TypeSymbol → Option TypeSymbol
    typedef_of type t = do
      length ← dia.length type
      source ← dia.sym_index_id type
      some (record t { length = length; typedef_source = source })

    unfoldable pub typedef_head : ℕ → Handle → TypeSymbol
    unfolding get_name_from_symbol
    typedef_head id h = record new_type {
      type = TypeKind.typedef;
      id = id;
      name = get_name_from_symbol dia h;
    }

    -- Whether the underlying type could be made does not matter.
    unfoldable pub create_typedef_symbol : Handle → Run (Option TypeSymbol)
    unfolding typedef_head is_function_type typedef_of
    create_typedef_symbol h w = elim (dia.sym_index_id h) [
      | none ↦ Outcome.done w none
      | some id ↦ elim (dia.type h) [
        | none ↦ Outcome.done w none
        | some none ↦ Outcome.null_access
        | some (some type) ↦
            if is_function_type (dia.sym_tag type)
            then Outcome.done w (some (typedef_head id h))
            else make (some type) w then_do λ w1 created.
                Outcome.done w1 (typedef_of type (typedef_head id h))
      ]
    ]

    unfoldable pub create_symbol : SymTag → Handle → Run (Option TypeSymbol)
    unfolding create_base_type_symbol create_udt_symbol create_enum_symbol
        create_pointer_type_symbol create_typedef_symbol create_array_type_symbol
    create_symbol SymTag.base_type h w = Outcome.done w (create_base_type_symbol h)
    create_symbol SymTag.udt h w = create_udt_symbol h w
    create_symbol SymTag.enum h w = create_enum_symbol h w
    create_symbol SymTag.pointer_type h w = create_pointer_type_symbol h w
    create_symbol SymTag.typedef h w = create_typedef_symbol h w
    create_symbol SymTag.array_type h w = Outcome.done w (create_array_type_symbol h)
    create_symbol tag h w = Outcome.done w none

    -- The assignment through the reference into `typeSymbols`.
    unfoldable pub store : ℕ → World → Option TypeSymbol → Outcome Bool
    store id w none = Outcome.done w false
    store id w (some t) = Outcome.done (with_types (put id t (types w)) w) true

    -- `CreateTypeSymbol`, its calls of itself given.
    unfoldable pub create_type_symbol_step : Make
    unfolding touch create_symbol store
    create_type_symbol_step none w = Outcome.done w false
    create_type_symbol_step (some h) w = elim (dia.sym_tag h) [
      | none ↦ Outcome.done w false
      | some tag ↦ elim (dia.sym_index_id h) [
        | none ↦ Outcome.done w false
        | some id ↦
            create_symbol tag h (with_types (touch id (types w)) w) then_do λ w1 t. store id w1 t
      ]
    ]

  unfoldable pub create_type_symbol : ℕ → Make
  unfolding create_type_symbol_step
  create_type_symbol zero h w = Outcome.out_of_fuel
  create_type_symbol (suc fuel) h w = create_type_symbol_step (create_type_symbol fuel) h w
