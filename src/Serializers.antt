-- ===== src/Serializers.antt =====
-- Components/UniversalSymbolsFormat/Serializers/ISerializer.h and ISerializer.cpp: the interface of
-- the serializers and the template method over it. `none` is undefined behaviour in a step.
pub mod Codes
pub mod Binary
pub mod Library
pub mod Json
use universal_symbols.Prelude.{
  ℕ, Bool, true, false, not, List, [], Option, none, some, ◌>>=◌, Text, text_eq, if◌then◌else◌,
}

-- `ISerializer::Type`; an `enum class` may hold other numbers too, which `SetSerializer` refuses.
pub data SerializerType : Type 0 where
  binary json : SerializerType
  other : ℕ → SerializerType

pub data SerializeResult : Type 0 where
  ok unknown serializer_uninitialized no_target_file no_data file_creation_failed : SerializeResult
  header_failed type_symbols_failed function_symbols_failed : SerializeResult

-- How a call ends that answers with an `A`, or is left by an exception.
pub data Answer (A : Type 0) : Type 0 where
  returned : A → Answer A
  thrown : Answer A

-- The file system: which files can be opened for writing, and what they hold.
pub record Disk : Type 0 where
  pub opens : Text → Bool
  pub files : Text → Option (List ℕ)

abbrev pub store : Text → List ℕ → Disk → Disk
store name bytes d = record d { files = λ n. if text_eq n name then some bytes else d.files n }

-- The virtual functions over a serializer's own state `S`, and its two protected fields.
pub record ISerializer (S : Type 0) : Type 0 where
  pub target_file_name : S → Text
  pub has_data : S → Bool
  pub serialize_header : S → Option (S × Bool)
  pub serialize_type_symbols : S → Option (S × Bool)
  pub serialize_function_symbols : S → Option (S × Bool)
  pub write_to_file : S → Disk → Option (S × Disk × Answer Bool)

-- What `SerializeToFile` answers after `WriteToFile`; it does not catch an exception.
abbrev pub saved_result : Answer Bool → Answer SerializeResult
saved_result (Answer.returned true) = Answer.returned SerializeResult.ok
saved_result (Answer.returned false) = Answer.returned SerializeResult.file_creation_failed
saved_result Answer.thrown = Answer.thrown

module _ {S : Type 0} (i : ISerializer S) where
  -- One virtual call that returns false on failure, and what follows it.
  abbrev pub attempt :
      (S → Option (S × Bool))
      → SerializeResult
      → S
      → Disk
      → (S → Option (S × Disk × Answer SerializeResult))
      → Option (S × Disk × Answer SerializeResult)
  attempt step failure s d next =
      step s >>= λ r. if r.1 then next r.0 else some (r.0, d, Answer.returned failure)

  unfoldable pub serialize_to_file : S → Disk → Option (S × Disk × Answer SerializeResult)
  serialize_to_file s d =
      if text_eq (i.target_file_name s) []
      then some (s, d, Answer.returned SerializeResult.no_target_file)
      else if not (i.has_data s)
      then some (s, d, Answer.returned SerializeResult.no_data)
      else attempt i.serialize_header SerializeResult.header_failed s d λ s1.
        attempt i.serialize_type_symbols SerializeResult.type_symbols_failed s1 d λ s2.
          attempt i.serialize_function_symbols SerializeResult.function_symbols_failed s2 d
            λ s3. i.write_to_file s3 d >>= λ r. some (r.0, r.1, saved_result r.2)
