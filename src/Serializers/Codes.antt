-- ===== src/Serializers/Codes.antt =====
-- The numbers behind the enumerations of Components/UniversalSymbolsFormat/USYM.h.
use universal_symbols.Prelude.{ℕ, Bool, true, false}
use universal_symbols.Usym.{OriginalFormat, Architecture, TypeKind, CallingConvention}

abbrev pub format_code : OriginalFormat → ℕ
format_code OriginalFormat.pdb = 0
format_code OriginalFormat.dwarf = 1
format_code OriginalFormat.unknown = 0xff

abbrev pub architecture_code : Architecture → ℕ
architecture_code Architecture.x86 = 0
architecture_code Architecture.x86_64 = 1
architecture_code Architecture.arm32 = 2
architecture_code Architecture.arm64 = 3
architecture_code Architecture.unknown = 0xff

abbrev pub type_code : TypeKind → ℕ
type_code TypeKind.base = 0
type_code TypeKind.struct = 1
type_code TypeKind.class = 2
type_code TypeKind.union = 3
type_code TypeKind.interface = 4
type_code TypeKind.enum = 5
type_code TypeKind.pointer = 6
type_code TypeKind.typedef = 7
type_code TypeKind.array = 8
type_code TypeKind.unknown = 0xff

abbrev pub convention_code : CallingConvention → ℕ
convention_code CallingConvention.near_c = 0
convention_code CallingConvention.near_fast = 1
convention_code CallingConvention.near_std = 2
convention_code CallingConvention.near_sys = 3
convention_code CallingConvention.thiscall = 4
convention_code CallingConvention.clr_call = 5
convention_code CallingConvention.unknown = 0xff

abbrev pub bool_code : Bool → ℕ
bool_code false = 0
bool_code true = 1
