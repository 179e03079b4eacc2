-- ===== src/Tests/Printing.antt =====
-- Names that are UTF-8 and names that are not, and what `Serialize` makes of them.
use universal_symbols.Prelude.{◌≡◌, refl, true, false, [], ◌∷◌, none, some, codes}
use universal_symbols.Usym
use universal_symbols.Usym.{Usym, TypeSymbol, new_type}
use universal_symbols.Usym.Purge.{purge_duplicate_types}
use universal_symbols.Usym.Hashing.{hash_type}
use universal_symbols.Serializers.{Answer, Disk}
use universal_symbols.Serializers.Library.{is_utf8}
use universal_symbols.Serializers.Json
use universal_symbols.Prelude.Map.{put, erase_if}
use universal_symbols.Serializers.Json.Printing.{type_named, function_named, field_named}
use universal_symbols.Serializers.Json.Names.{has_utf8_names}
use universal_symbols.Serialize.{Program, Outcome, serialize, json}
use universal_symbols.Serialize.JsonFile.{serialize_shows}
use universal_symbols.Tests.Samples.{hasher, grow}
use universal_symbols.Tests.JsonModel.{library, library-laws}

-- The euro sign, and the smiling face of four bytes.
utf8_accepts : is_utf8 (226 ∷ 130 ∷ 172 ∷ 240 ∷ 159 ∷ 152 ∷ 128 ∷ []) ≡ true
unfolding is_utf8
utf8_accepts = refl

-- An overlong slash, a surrogate, a character that is cut off, and a byte of Latin-1.
utf8_overlong : is_utf8 (192 ∷ 175 ∷ []) ≡ false
unfolding is_utf8
utf8_overlong = refl

utf8_surrogate : is_utf8 (237 ∷ 160 ∷ 128 ∷ []) ≡ false
unfolding is_utf8
utf8_surrogate = refl

utf8_cut : is_utf8 (226 ∷ 130 ∷ []) ≡ false
unfolding is_utf8
utf8_cut = refl

utf8_latin : is_utf8 (252 ∷ 98 ∷ []) ≡ false
unfolding is_utf8
utf8_latin = refl

abbrev latin : Usym
latin = record Usym.new { type_symbols = (1, record new_type { id = 1; name = 252 ∷ [] }) ∷ [] }

abbrev latin_program : Program library (hash_type hasher) grow
latin_program = record { usym = latin; serializer = some (json (Json.new library)) }

abbrev disk : Disk
disk = record { opens = λ n. true; files = λ n. none }

latin_named : has_utf8_names (purge_duplicate_types (hash_type hasher) latin) ≡ false
unfolding has_utf8_names type_named function_named field_named is_utf8 purge_duplicate_types
    hash_type put erase_if
latin_named = refl

-- A type whose name is Latin-1 makes the JSON serializer throw.
latin_thrown :
    (o : Outcome library (hash_type hasher) grow) × (serialize library
        (hash_type hasher)
        grow
        (codes "a")
        latin_program
        disk
      ≡ some o)
    × (o.result ≡ Answer.thrown)
unfolding Json.new library
latin_thrown =
    let run =
      serialize_shows library library-laws (hash_type hasher) grow (codes "a") latin_program
        (Json.new library) disk refl (refl, tt) tt library-laws.takes_keys-start
        library-laws.prints-start in
    (run.0, run.2, rw (run.3, latin_named) refl)
