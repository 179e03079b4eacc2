-- ===== src/Tests/JsonModel.antt =====
-- A library of JSON values that keeps the laws which the serializer relies on.
use universal_symbols.Prelude.{
  ℕ, ◌≡◌, refl, Bool, true, false, List, [], ◌∷◌, ◌++◌, Option, none, some, arith, Text, codes,
  text_eq, text_eq→eq, text_eq_refl, eq→text_eq, all, All, ◌&&◌, if◌then◌else◌,
}
use universal_symbols.Prelude.Decimal.{to_string}
use universal_symbols.Serializers.Library.{TextMap, lookup, is_utf8, JsonLibrary, IsJsonLibrary}

mutual
  pub data Value : Type 0 where
    null : Value
    num : ℕ → Value
    str : Text → Value
    bool : Bool → Value
    arr : Items → Value
    obj : Members → Value

  pub data Items : Type 0 where
    nil : Items
    cons : Value → Items → Items

  pub data Members : Type 0 where
    end : Members
    member : Text → Value → Members → Members

items : List Value → Items
items [] = nil
items (v ∷ vs) = cons v (items vs)

members : TextMap Value → Members
members [] = end
members ((k, v) ∷ m) = member k v (members m)

find_member : Text → Members → Option Value
find_member k end = none
find_member k (member j v ms) = if text_eq j k then some v else find_member k ms

set_member : Text → Value → Members → Members
set_member k v end = member k v end
set_member k v (member j w ms) =
    if text_eq j k then member j v ms else member j w (set_member k v ms)

get_value : Text → Value → Option Value
unfolding find_member
get_value k (obj ms) = find_member k ms
get_value k _ = none

set_value : Text → Value → Value → Value
unfolding set_member
set_value k v null = obj (member k v end)
set_value k v (obj ms) = obj (set_member k v ms)
set_value k v j = j

has_keys : Value → Bool
has_keys null = true
has_keys (obj ms) = true
has_keys _ = false

mutual
  show_value : Value → Text
  show_value null = codes "null"
  show_value (num n) = to_string n
  show_value (str s) = s
  show_value (bool b) = if b then codes "true" else codes "false"
  show_value (arr vs) = codes "[" ++ (show_items vs ++ codes "]")
  show_value (obj ms) = codes "{" ++ (show_members ms ++ codes "}")

  show_items : Items → Text
  show_items nil = []
  show_items (cons v vs) = show_value v ++ (codes "," ++ show_items vs)

  show_members : Members → Text
  show_members end = []
  show_members (member k v ms) =
      k ++ (codes ":" ++ (show_value v ++ (codes "," ++ show_members ms)))

mutual
  utf8_value : Value → Bool
  utf8_value (str s) = is_utf8 s
  utf8_value (arr vs) = utf8_items vs
  utf8_value (obj ms) = utf8_members ms
  utf8_value null = true
  utf8_value (num n) = true
  utf8_value (bool b) = true

  utf8_items : Items → Bool
  utf8_items nil = true
  utf8_items (cons v vs) = utf8_value v && utf8_items vs

  utf8_members : Members → Bool
  utf8_members end = true
  utf8_members (member k v ms) = is_utf8 k && (utf8_value v && utf8_members ms)

unfoldable pub library : JsonLibrary
unfolding items members get_value set_value has_keys utf8_value show_value
library = record {
  Json = Value;
  null = null;
  start = obj end;
  number = num;
  text = str;
  boolean = bool;
  array = λ vs. arr (items vs);
  object = λ m. obj (members m);
  set = set_value;
  get = get_value;
  takes_keys = has_keys;
  prints = utf8_value;
  print = show_value;
}

find-set_member :
    (k i : Text) (v : Value) (ms : Members)
    → find_member i (set_member k v ms) ≡ (if text_eq k i then some v else find_member i ms)
unfolding find_member set_member
find-set_member k i v end = refl
find-set_member k i v (member j w ms) = ground (
  arith,
  find-set_member k i v ms,
  text_eq→eq j k,
  text_eq→eq j i,
  text_eq→eq k i,
  text_eq_refl i,
  eq→text_eq j i,
  eq→text_eq k i,
)

has_keys-set_value :
    (k : Text) (v j : Value) → has_keys j ≡ true → has_keys (set_value k v j) ≡ true
unfolding has_keys set_value
has_keys-set_value k v j ok = ground arith

get-set_value :
    (k i : Text) (v j : Value)
    → has_keys j ≡ true
    → get_value i (set_value k v j) ≡ (if text_eq k i then some v else get_value i j)
unfolding has_keys set_value get_value
get-set_value k i v null ok = refl
get-set_value k i v (obj ms) ok = find-set_member k i v ms
get-set_value k i v (num n) ok = cc
get-set_value k i v (str s) ok = cc
get-set_value k i v (bool b) ok = cc
get-set_value k i v (arr vs) ok = cc

find-members : (k : Text) (m : TextMap Value) → find_member k (members m) ≡ lookup k m
unfolding find_member members
find-members k [] = refl
find-members k ((j, v) ∷ m) = ground (arith, find-members k m)

utf8_items-items : (vs : List Value) → utf8_items (items vs) ≡ all utf8_value vs
unfolding items utf8_value
utf8_items-items [] = refl
utf8_items-items (v ∷ vs) = rw (utf8_items-items vs) refl

utf8_members-members :
    (m : TextMap Value)
    → All (λ e. (is_utf8 e.0 ≡ true) × (utf8_value e.1 ≡ true)) m
    → utf8_members (members m) ≡ true
unfolding members utf8_value
utf8_members-members [] h = refl
utf8_members-members ((k, v) ∷ m) h = rw (h.0.0, h.0.1, utf8_members-members m h.1) refl

utf8_members-set_member :
    (k : Text) (v : Value) (ms : Members)
    → is_utf8 k ≡ true
    → utf8_value v ≡ true
    → utf8_members ms ≡ true
    → utf8_members (set_member k v ms) ≡ true
unfolding set_member utf8_value
utf8_members-set_member k v end hk hv hm = ground arith
utf8_members-set_member k v (member j w ms) hk hv hm =
    ground (arith, utf8_members-set_member k v ms)

utf8_value-set_value :
    (k : Text) (v j : Value)
    → has_keys j ≡ true
    → is_utf8 k ≡ true
    → utf8_value v ≡ true
    → utf8_value j ≡ true
    → utf8_value (set_value k v j) ≡ true
unfolding has_keys set_value utf8_value
utf8_value-set_value k v null ok hk hv hj = rw (hk, hv) refl
utf8_value-set_value k v (obj ms) ok hk hv hj = utf8_members-set_member k v ms hk hv hj
utf8_value-set_value k v (num n) ok hk hv hj = cc
utf8_value-set_value k v (str s) ok hk hv hj = cc
utf8_value-set_value k v (bool b) ok hk hv hj = cc
utf8_value-set_value k v (arr vs) ok hk hv hj = cc

utf8_value-find_member :
    (k : Text) (v : Value) (ms : Members)
    → utf8_members ms ≡ true
    → find_member k ms ≡ some v
    → utf8_value v ≡ true
unfolding find_member utf8_value
utf8_value-find_member k v end h e = cc
utf8_value-find_member k v (member j w ms) h e = ground (arith, utf8_value-find_member k v ms)

utf8_value-get_value :
    (k : Text) (v j : Value) → utf8_value j ≡ true → get_value k j ≡ some v → utf8_value v ≡ true
unfolding get_value utf8_value
utf8_value-get_value k v (obj ms) h e = utf8_value-find_member k v ms h e
utf8_value-get_value k v null h e = cc
utf8_value-get_value k v (num n) h e = cc
utf8_value-get_value k v (str s) h e = cc
utf8_value-get_value k v (bool b) h e = cc
utf8_value-get_value k v (arr vs) h e = cc

pub library-laws : IsJsonLibrary library
unfolding library
library-laws = record {
  takes_keys-null = refl;
  takes_keys-start = refl;
  takes_keys-set = has_keys-set_value;
  get-set = get-set_value;
  get-object = find-members;
  prints-null = refl;
  prints-start = refl;
  prints-number = λ n. refl;
  prints-boolean = λ b. refl;
  prints-text = λ s. refl;
  prints-array = utf8_items-items;
  prints-object = utf8_members-members;
  prints-set = utf8_value-set_value;
  prints-get = utf8_value-get_value;
}
