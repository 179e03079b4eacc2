-- ===== src/Tests/Samples.antt =====
-- Symbols of a small program: `int32_t` twice, and a structure with a field of the second.
use universal_symbols.Prelude.{ℕ, ◌+◌, ◌*◌, ◌/◌, ◌≤◌, false, [], ◌∷◌, Text, codes, arith, refl}
use universal_symbols.Prelude.Map.{Distinct}
use universal_symbols.Usym.{
  OriginalFormat, Architecture, TypeKind, CallingConvention, FieldSymbol, TypeSymbol,
  FunctionSymbol, Usym,
}
use universal_symbols.Usym.Hashing.{Hasher}

abbrev pub sum_hash : Text → ℕ
sum_hash [] = 7
sum_hash (c ∷ s) = c + 31 * sum_hash s

abbrev pub hasher : Hasher
hasher = record { u32 = λ n. n; u64 = λ n. n; text = sum_hash }

-- Whole numbers stand in for the doubles.
abbrev pub grow : ℕ → ℕ
grow n = n + n / 10

pub grow_bound : (n : ℕ) → grow n ≤ 2 * n
grow_bound n = omega arith

abbrev pub int32 : ℕ → TypeSymbol
int32 id = record {
  id = id;
  name = codes "int32_t";
  type = TypeKind.base;
  length = 4;
  field_count = 0;
  fields = [];
  typedef_source = 0;
}

abbrev pub counter_field : FieldSymbol
counter_field = record {
  id = 5;
  name = codes "n";
  underlying_type_id = 2;
  offset = 0;
  is_anonymous_union = false;
  union_id = 0;
}

abbrev pub counter : TypeSymbol
counter = record {
  id = 3;
  name = codes "Counter";
  type = TypeKind.struct;
  length = 4;
  field_count = 1;
  fields = counter_field ∷ [];
  typedef_source = 0;
}

abbrev pub first_counter : TypeSymbol
first_counter = record counter {
  id = 4;
  fields = record counter_field { underlying_type_id = 1 } ∷ [];
}

abbrev pub bump : FunctionSymbol
bump = record {
  id = 9;
  name = codes "bump";
  return_type_id = 2;
  argument_count = 2;
  argument_type_ids = 3 ∷ 2 ∷ [];
  calling_convention = CallingConvention.thiscall;
  virtual_address = 4096;
}

abbrev pub program : Usym
program = record {
  header = record {
    magic = 0x4d595355;
    original_format = OriginalFormat.pdb;
    architecture = Architecture.x86_64;
  };
  type_symbols = (1, int32 1) ∷ (2, int32 2) ∷ (3, counter) ∷ [];
  function_symbols = (9, bump) ∷ [];
}

pub program-Distinct : Distinct program.type_symbols
program-Distinct = (refl, (refl, (refl, tt)))

-- As `counter`, with its field under another name and at another offset.
abbrev pub other_counter : TypeSymbol
other_counter = record counter {
  id = 4;
  fields = record counter_field { name = codes "m"; offset = 8 } ∷ [];
}

abbrev pub two_counters : Usym
two_counters = record program { type_symbols = (3, counter) ∷ (4, other_counter) ∷ [] }
