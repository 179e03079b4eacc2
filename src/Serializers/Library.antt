-- ===== src/Serializers/Library.antt =====
-- What Components/UniversalSymbolsFormat/Serializers/JsonSerializer.cpp uses of nlohmann::json, which
-- is not part of the program: a parameter, with its documented behaviour as laws.
use universal_symbols.Prelude.{
  ℕ, ◌-◌, ◌<◌, ◌≡◌, refl, Bool, true, false, ◌&&◌, arith, ltb, leb, ◌==◌, all, All, List, [], ◌∷◌,
  Option, none, some, Text, text_eq, if◌then◌else◌,
}

abbrev pub TextMap : Type 0 → Type 0
TextMap V = List (Text × V)

module _ {V : Type 0} where
  -- `std::unordered_map<std::string, V>`
  abbrev pub lookup : Text → TextMap V → Option V
  lookup k [] = none
  lookup k ((j, v) ∷ m) = if text_eq j k then some v else lookup k m

  unfoldable pub assign : Text → V → TextMap V → TextMap V
  assign k v [] = (k, v) ∷ []
  assign k v ((j, w) ∷ m) = if text_eq j k then (j, v) ∷ m else (j, w) ∷ assign k v m

-- What may follow in a text of UTF-8 (RFC 3629): the bytes after the first of a character, and the range
-- of the next of them.
pub record Pending : Type 0 where
  pub left : ℕ
  pub low : ℕ
  pub high : ℕ

abbrev pub no_more : Pending
no_more = record { left = 0; low = 0x80; high = 0xbf }

-- The first byte of a character.
abbrev pub lead : ℕ → Option Pending
lead c =
    if ltb c 0x80
    then some no_more
    else if ltb c 0xc2
    then none
    else if ltb c 0xe0
    then some (record { left = 1; low = 0x80; high = 0xbf })
    else if c == 0xe0
    then some (record { left = 2; low = 0xa0; high = 0xbf })
    else if c == 0xed
    then some (record { left = 2; low = 0x80; high = 0x9f })
    else if ltb c 0xf0
    then some (record { left = 2; low = 0x80; high = 0xbf })
    else if c == 0xf0
    then some (record { left = 3; low = 0x90; high = 0xbf })
    else if ltb c 0xf4
    then some (record { left = 3; low = 0x80; high = 0xbf })
    else if c == 0xf4
    then some (record { left = 3; low = 0x80; high = 0x8f })
    else none

abbrev pub next_byte : Pending → ℕ → Option Pending
next_byte p c =
    if p.left == 0
    then lead c
    else if leb p.low c && leb c p.high
    then some (record { left = p.left - 1; low = 0x80; high = 0xbf })
    else none

abbrev pub is_utf8_from : Pending → Text → Bool
is_utf8_from p [] = p.left == 0
is_utf8_from p (c ∷ s) = elim (next_byte p c) [ none ↦ false | some q ↦ is_utf8_from q s ]

unfoldable pub is_utf8 : Text → Bool
is_utf8 s = is_utf8_from no_more s

pub is_utf8-ascii : (s : Text) → All (λ c. c < 0x80) s → is_utf8 s ≡ true
unfolding is_utf8
is_utf8-ascii [] h = refl
is_utf8-ascii (c ∷ s) h = ground (arith, is_utf8-ascii s h.1)

pub record JsonLibrary : Type 1 where
  pub Json : Type 0
  pub null : Json
  -- `json({})`
  pub start : Json
  pub number : ℕ → Json
  pub text : Text → Json
  pub boolean : Bool → Json
  -- `json::array()` filled by `emplace_back`, and a vector assigned to a value
  pub array : List Json → Json
  -- an `unordered_map` assigned to a value
  pub object : TextMap Json → Json
  -- `j[key] = value`
  pub set : Text → Json → Json → Json
  pub get : Text → Json → Option Json
  -- `operator[]` with a key takes null and objects, and throws on any other value
  pub takes_keys : Json → Bool
  -- `std::setw(4) << j << std::endl` throws type_error.316 where a string of the value is not UTF-8:
  -- whether it ends without it, and the bytes that it puts out until it ends or throws
  pub prints : Json → Bool
  pub print : Json → List ℕ

pub record IsJsonLibrary (l : JsonLibrary) : Type 0 where
  pub takes_keys-null : l.takes_keys l.null ≡ true
  pub takes_keys-start : l.takes_keys l.start ≡ true
  pub takes_keys-set :
      (k : Text) (v j : l.Json) → l.takes_keys j ≡ true → l.takes_keys (l.set k v j) ≡ true
  pub get-set :
      (k i : Text) (v j : l.Json)
      → l.takes_keys j ≡ true
      → l.get i (l.set k v j) ≡ (if text_eq k i then some v else l.get i j)
  pub get-object : (k : Text) (m : TextMap l.Json) → l.get k (l.object m) ≡ lookup k m
  -- Printing throws exactly where a text of the value is not UTF-8.
  pub prints-null : l.prints l.null ≡ true
  pub prints-start : l.prints l.start ≡ true
  pub prints-number : (n : ℕ) → l.prints (l.number n) ≡ true
  pub prints-boolean : (b : Bool) → l.prints (l.boolean b) ≡ true
  pub prints-text : (s : Text) → l.prints (l.text s) ≡ is_utf8 s
  pub prints-array : (vs : List l.Json) → l.prints (l.array vs) ≡ all l.prints vs
  pub prints-object :
      (m : TextMap l.Json)
      → All (λ e. (is_utf8 e.0 ≡ true) × (l.prints e.1 ≡ true)) m
      → l.prints (l.object m) ≡ true
  pub prints-set :
      (k : Text) (v j : l.Json)
      → l.takes_keys j ≡ true
      → is_utf8 k ≡ true
      → l.prints v ≡ true
      → l.prints j ≡ true
      → l.prints (l.set k v j) ≡ true
  pub prints-get :
      (k : Text) (v j : l.Json) → l.prints j ≡ true → l.get k j ≡ some v → l.prints v ≡ true
