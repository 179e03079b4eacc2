-- ===== src/Tests/Pdb.antt =====
-- A small PDB: a structure with a field of a typedef of the structure itself, and a function that
-- takes the structure.
use universal_symbols.Prelude.{
  ◌^◌, ℕ, ◌<◌, ◌≡◌, refl, true, false, is_some, ◌==◌, List, [], ◌∷◌, Option, none, some, All, arith,
  ltb, if◌then◌else◌, codes,
}
use universal_symbols.Usym
use universal_symbols.Usym.{Usym}
use universal_symbols.Usym.Verify.{verify_type_ids}
use universal_symbols.Usym.Purge.{purge_duplicate_types}
use universal_symbols.Usym.Hashing.{hash_type}
use universal_symbols.Tests.Samples.{hasher}
use universal_symbols.Dia.{Dia, Handle, SymTag, UdtKind, CallKind, Machine}
use universal_symbols.Dia.Run.{World, Outcome}
use universal_symbols.Dia.Build.{Session, create_usym_from_file}
use universal_symbols.Dia.Growth.{member}
use universal_symbols.Dia.Lifetime.{Held, create_and_release}
use universal_symbols.Dia.Lifetime.Closed.{IsClosed, create_and_release-IsClosed}
use universal_symbols.Dia.Documented.{IsDia}
use universal_symbols.Dia.Verified.{create_usym_from_file-verify_type_ids}

-- 0 the file, 1 the structure, 2 its field, 3 the typedef, 4 the function, 5 its type, 6 its argument.
abbrev tag_of : Handle → SymTag
tag_of h =
    if h == 1
    then SymTag.udt
    else if h == 2
    then SymTag.datum
    else if h == 3
    then SymTag.typedef
    else if h == 4
    then SymTag.function
    else if h == 5
    then SymTag.function_type
    else if h == 6
    then SymTag.function_arg_type
    else SymTag.other

abbrev type_of : Handle → Handle
type_of h = if h == 2 then 3 else if h == 4 then 5 else 1

abbrev children_of : Handle → SymTag → Option (ℕ × List Handle)
children_of h SymTag.udt = if h == 0 then some (1, 1 ∷ []) else none
children_of h SymTag.datum = if h == 1 then some (1, 2 ∷ []) else none
children_of h SymTag.typedef = if h == 0 then some (1, 3 ∷ []) else none
children_of h SymTag.function = if h == 0 then some (1, 4 ∷ []) else none
children_of h SymTag.function_arg_type = if h == 5 then some (1, 6 ∷ []) else none
children_of h tag = none

abbrev pub pdb : Dia
pdb = record {
  sym_tag = λ h. some (tag_of h);
  sym_index_id = λ h. if ltb h 7 then some h else none;
  name = λ h. some (codes "name");
  narrow = λ s. s;
  offset = λ h. some 0;
  type = λ h. some (some (type_of h));
  base_type = λ h. none;
  length = λ h. some 8;
  udt_kind = λ h. some UdtKind.struct;
  count = λ h. some 1;
  object_pointer_type = λ h. none;
  calling_convention = λ h. some CallKind.near_c;
  virtual_address = λ h. some 4096;
  machine_type = λ h. some Machine.amd64;
  find_children = children_of;
}

abbrev pub handles : List ℕ
handles = 0 ∷ 1 ∷ 2 ∷ 3 ∷ 4 ∷ 5 ∷ 6 ∷ []

abbrev pub rank_of : Handle → ℕ
rank_of h = if h == 3 then 1 else 0

abbrev pub start : World
start = record { usym = Usym.new; counter = 0 }

children_tags :
    (h : Handle) (count : ℕ) (hs : List Handle)
    → children_of h SymTag.function_arg_type ≡ some (count, hs)
    → All (λ a. some (tag_of a) ≡ some SymTag.function_arg_type) hs
children_tags h count hs e = let same : hs ≡ 6 ∷ [] = ground (arith, e) in rw same (refl, tt)

counts :
    (h : Handle) (count : ℕ) (hs : List Handle)
    → children_of h SymTag.datum ≡ some (count, hs)
    → count < 2 ^ 31
counts h count hs e = ground (arith, e)

known_handle : (h id : ℕ) → (if ltb h 7 then some h else none) ≡ some id → member id handles ≡ true
known_handle h id e = ground (arith, e)

typedef_below :
    (h type : ℕ)
    → some (tag_of h) ≡ some SymTag.typedef
    → some (some (type_of h)) ≡ some (some type)
    → rank_of type < rank_of h
typedef_below h type e e1 = ground (arith, e, e1)

pub pdb-IsDia : IsDia pdb handles 1 rank_of
pdb-IsDia = record {
  tagged = λ h e. cc;
  known = known_handle;
  typed = λ h e. cc;
  rank_bound = λ h. ground arith;
  typedef_rank = typedef_below;
  arguments = children_tags;
  argument_type = λ h e e1. cc;
  counted = counts;
}

create_usym_from_file-verify_type_ids_example :
    (w1 : World) × (create_usym_from_file 16 (Session.opened pdb 0) start
      ≡ Outcome.done w1 (some w1.usym))
    × (verify_type_ids w1.usym ≡ true)
    × (verify_type_ids (purge_duplicate_types (hash_type hasher) w1.usym) ≡ true)
create_usym_from_file-verify_type_ids_example =
    create_usym_from_file-verify_type_ids pdb 0 handles 1 rank_of pdb-IsDia 16 (omega arith) start
      (hash_type hasher)

-- Nothing is held before the first call.
abbrev nothing_held : Held
nothing_held = record {
  session = false;
  data_source = false;
  global_scope = false;
  entered = 0;
  left = 0;
  lost = 0;
}

nothing_held-IsClosed : IsClosed nothing_held
nothing_held-IsClosed = record {
  session = refl;
  data_source = refl;
  global_scope = refl;
  balanced = refl;
  kept = refl;
}

create_and_release-IsClosed_example :
    (w1 : World) × (u : Option Usym) × (h1 : Held) × (create_and_release 16
        (record { create = true; load = true; open_session = true; get_scope = some (pdb, 0) })
        start
        nothing_held
      ≡ (Outcome.done w1 u, h1))
    × (is_some u ≡ true)
    × IsClosed h1
create_and_release-IsClosed_example =
    create_and_release-IsClosed pdb 0 handles 1 rank_of pdb-IsDia 16 (omega arith) true true true
      true start nothing_held nothing_held-IsClosed
