-- ===== src/Dia.antt =====
-- Components/DiaProcessor/DiaInterface.cpp, over what it uses of the debug interface (DIA) of
-- Windows: an `IDiaSymbol*` is a handle, and a `get_` call is a function of the handle that is `none`
-- where the call does not return `S_OK`. The enumerations have the constants that the code names.
pub mod Names
pub mod Run
pub mod Create
pub mod Build
pub mod Lifetime
pub mod Growth
pub mod Documented
pub mod Members
pub mod Calls
pub mod Termination
pub mod Functions
pub mod Verified
pub mod Unions
use universal_symbols.Prelude.{ℕ, List, Option, Text}

abbrev pub Handle : Type 0
Handle = ℕ

-- `SymTagEnum`
pub data SymTag : Type 0 where
  function datum udt enum function_type pointer_type array_type base_type typedef function_arg_type
        other :
      SymTag

pub data BasicType : Type 0 where
  no_type void char wchar int uint float bcd bool long ulong currency date complex bit bstr hresult
        char8 char16 char32 other :
      BasicType

pub data UdtKind : Type 0 where
  struct class union interface other : UdtKind

-- `CV_call_e`
pub data CallKind : Type 0 where
  near_c near_fast near_std near_sys thiscall clrcall other : CallKind

-- `IMAGE_FILE_MACHINE_`
pub data Machine : Type 0 where
  i386 amd64 arm arm64 other : Machine

-- `type` and `object_pointer_type` may succeed with a null pointer. `find_children` gives what
-- `get_Count` answers and what `Next` yields. `narrow` is `wcstombs_s` on a new buffer.
pub record Dia : Type 0 where
  pub sym_tag : Handle → Option SymTag
  pub sym_index_id : Handle → Option ℕ
  pub name : Handle → Option Text
  pub narrow : Text → Text
  pub offset : Handle → Option ℕ
  pub type : Handle → Option (Option Handle)
  pub base_type : Handle → Option BasicType
  pub length : Handle → Option ℕ
  pub udt_kind : Handle → Option UdtKind
  pub count : Handle → Option ℕ
  pub object_pointer_type : Handle → Option (Option Handle)
  pub calling_convention : Handle → Option CallKind
  pub virtual_address : Handle → Option ℕ
  pub machine_type : Handle → Option Machine
  pub find_children : Handle → SymTag → Option (ℕ × List Handle)
