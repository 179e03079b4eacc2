-- ===== src/Serialize.antt =====
-- `USYM::SetSerializer` and `USYM::Serialize` (Components/UniversalSymbolsFormat/USYM.cpp): the
-- symbols with the serializer that they own.
pub mod Storable
pub mod Files
pub mod JsonFile
pub mod Lifecycle
use universal_symbols.Prelude.{ℕ, Bool, false, not, Option, none, some, ◌>>=◌, Text, codes}
use universal_symbols.Usym.{TypeSymbol, Usym}
use universal_symbols.Usym.Purge.{purge_duplicate_types}
use universal_symbols.Usym.Verify.{verify_type_ids}
use universal_symbols.Serializers.{SerializerType, SerializeResult, Answer, Disk, serialize_to_file}
use universal_symbols.Serializers.Binary
use universal_symbols.Serializers.Binary.{BinarySerializer}
use universal_symbols.Serializers.Json
use universal_symbols.Serializers.Json.{JsonSerializer}
use universal_symbols.Serializers.Library.{JsonLibrary}

-- `hash` is `std::hash<USYM::TypeSymbol>` and `grow` the arithmetic in doubles of the writer.
module _ (l : JsonLibrary) (hash : TypeSymbol → ℕ) (grow : ℕ → ℕ) where
  pub data Serializer : Type 0 where
    binary : BinarySerializer → Serializer
    json : JsonSerializer l → Serializer

  pub record Program : Type 0 where
    pub usym : Usym
    pub serializer : Option Serializer

  pub data SetResult : Type 0 where
    done : Program → SetResult
    -- std::runtime_error
    thrown : Text → SetResult

  unfoldable pub set_serializer : SerializerType → Program → SetResult
  set_serializer SerializerType.binary p = done (record p { serializer = some (binary Binary.new) })
  set_serializer SerializerType.json p = done (record p { serializer = some (json (Json.new l)) })
  set_serializer (SerializerType.other n) p = thrown (codes "No serializer for type found.")

  -- `pUsym` points to the owner, so that after the purge it sees the purged symbols.
  abbrev pub point_to : Usym → Serializer → Serializer
  point_to u (binary s) = binary (record s { usym = some u })
  point_to u (json s) = json (record s { usym = some u })

  abbrev pub setup : Text → Usym → Serializer → Serializer
  setup output u (binary s) = binary (Binary.setup output u s)
  setup output u (json s) = json (Json.setup l output u s)

  abbrev pub run : Serializer → Disk → Option (Serializer × Disk × Answer SerializeResult)
  run (binary s) d =
      serialize_to_file (Binary.serializer grow) s d >>= λ r. some (binary r.0, r.1, r.2)
  run (json s) d = serialize_to_file (Json.serializer l) s d >>= λ r. some (json r.0, r.1, r.2)

  -- What a call of `Serialize` leaves, also where an exception leaves it: `critical` says whether it logged that type ids are missing.
  pub record Outcome : Type 0 where
    pub program : Program
    pub disk : Disk
    pub result : Answer SerializeResult
    pub critical : Bool

  unfoldable pub serialize : Text → Program → Disk → Option Outcome
  serialize output p d = elim p.serializer [
    | none ↦ some (record {
      program = p;
      disk = d;
      result = Answer.returned SerializeResult.serializer_uninitialized;
      critical = false;
    })
    | some s ↦
        let s1 = setup output p.usym s in
        let purged = purge_duplicate_types hash p.usym in
        let s2 = point_to purged s1 in
        run s2 d >>= λ r. some (record {
          program = record { usym = purged; serializer = some r.0 };
          disk = r.1;
          result = r.2;
          critical = not (verify_type_ids purged);
        })
  ]
