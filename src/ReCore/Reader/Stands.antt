-- ===== src/ReCore/Reader/Stands.antt =====
-- What stands at a place of a loaded file, and that the reads find it.
use universal_symbols.Prelude.{
  ℕ, ◌+◌, ◌<◌, ◌≡◌, refl, ap, sym, ◌∙◌, List, [], ◌∷◌, ◌++◌, some, arith, length, drop, All, Text,
  length-append, drop-append, append_assoc,
}
use universal_symbols.ReCore.Memory.{size_mod}
use universal_symbols.ReCore.Buffer.{Buffer, advance}
use universal_symbols.ReCore.Reader.{read, read_string, until_zero}
use universal_symbols.ReCore.Reader.Bounds.{IsLoaded, read_impl_middle}

pub record Stands (bytes : List ℕ) (at : ℕ) (ys : List ℕ) : Type 0 where
  pub before : List ℕ
  pub after : List ℕ
  pub split : bytes ≡ before ++ (ys ++ after)
  pub place : at ≡ length before

-- A first part and what follows it.
pub Stands_left : (bytes ys zs : List ℕ) (at : ℕ) → Stands bytes at (ys ++ zs) → Stands bytes at ys
Stands_left bytes ys zs at s = record {
  before = s.before;
  after = zs ++ s.after;
  split = s.split ∙ ap (λ t. s.before ++ t) (append_assoc ys zs s.after);
  place = s.place;
}

pub Stands_right :
    (bytes ys zs : List ℕ) (at : ℕ) → Stands bytes at (ys ++ zs) → Stands bytes (at + length ys) zs
Stands_right bytes ys zs at s = record {
  before = s.before ++ ys;
  after = s.after;
  split =
      s.split
      ∙ ap (λ t. s.before ++ t) (append_assoc ys zs s.after)
      ∙ sym (append_assoc s.before ys (zs ++ s.after));
  place = omega (arith, s.place, length-append s.before ys);
}

pub read-Stands :
    (r : Buffer) (bytes ys : List ℕ)
    → IsLoaded r bytes
    → length bytes < size_mod
    → Stands bytes r.position ys
    → read (length ys) r ≡ some (record r { position = r.position + length ys }, some ys)
unfolding read
read-Stands r bytes ys h small s =
    let long = length-append s.before (ys ++ s.after) in
    let rest = length-append ys s.after in
    read_impl_middle r s.before ys s.after
      (record { memory = h.memory ∙ ap some s.split; size = h.size ∙ ap length s.split }) s.place
      (omega (arith, ap length s.split, long, rest))

abbrev pub IsNonzero : ℕ → Type 0
IsNonzero c = 0 < c

until_zero-append :
    (name rest : List ℕ) → All IsNonzero name → until_zero (name ++ (0 ∷ rest)) ≡ some name
unfolding until_zero
until_zero-append [] rest ok = refl
until_zero-append (c ∷ name) rest ok = ground (arith, ok.0, until_zero-append name rest ok.1)

-- A C string.
pub read_string-Stands :
    (r : Buffer) (bytes : List ℕ) (name : Text)
    → IsLoaded r bytes
    → All IsNonzero name
    → Stands bytes r.position (name ++ (0 ∷ []))
    → read_string r ≡ some (advance (length name + 1) r, name)
unfolding read_string
read_string-Stands r bytes name h ok s =
    let got : until_zero (drop r.position bytes) ≡ some name =
      rw
        (
          s.split,
          s.place,
          drop-append,
          append_assoc name (0 ∷ []) s.after,
          until_zero-append name s.after ok,
        )
        refl in
    rw (h.memory, got) refl
