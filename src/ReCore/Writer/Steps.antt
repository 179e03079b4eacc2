-- ===== src/ReCore/Writer/Steps.antt =====
-- Steps on a writer by what they append, and the rule for steps in a row.
use universal_symbols.Prelude.{
  ℕ, ◌+◌, ◌*◌, ◌≤◌, ◌<◌, ◌≡◌, refl, List, [], ◌∷◌, ◌++◌, some, arith, length, Text, append_assoc,
  append-nil, length-append,
}
use universal_symbols.ReCore.Memory.{size_mod, le_bytes}
use universal_symbols.ReCore.Buffer.{Buffer}
use universal_symbols.ReCore.Writer.{Step, ◌>>◌, write, write_string}
use universal_symbols.ReCore.Writer.Contents.{Holds, write_impl-Holds}

-- The step succeeds on every writer that has not outgrown `size_t`, and appends `bytes`.
abbrev pub Writes : Step → List ℕ → Type 0
Writes m bytes =
    (cap : ℕ) (b : Buffer) (before : List ℕ)
    → Holds b before
    → b.size ≤ cap + 2 * b.position
    → cap + 2 * (b.position + length bytes) < size_mod
    → (b' : Buffer) × (m b ≡ some b')
      × Holds b' (before ++ bytes)
      × (b'.size ≤ cap + 2 * b'.position)
      × (b.size ≤ b'.size)

unfoldable pub c_string : Text → List ℕ
c_string s = s ++ (0 ∷ [])

pub Writes-none : Writes some []
Writes-none cap b before h small big = (b, refl, rw append-nil h, small, omega arith)

pub Writes-seq :
    (m n : Step) (xs ys : List ℕ) → Writes m xs → Writes n ys → Writes (m >> n) (xs ++ ys)
Writes-seq m n xs ys wm wn cap b before h small big =
    let long = length-append xs ys in
    let (b1, e1, h1, small1, up1) = wm cap b before h small (omega arith) in
    let (b2, e2, h2, small2, up2) =
      wn cap b1 (before ++ xs) h1 small1 (omega (arith, h1.at, h.at, length-append before xs)) in
    (b2, rw e1 e2, rw (append_assoc before xs ys) at h2, small2, omega arith)

module _ (grow : ℕ → ℕ) (bound : (n : ℕ) → grow n ≤ 2 * n) where
  pub Writes-write : (width v : ℕ) → Writes (write grow width v) (le_bytes width v)
  unfolding write
  Writes-write width v cap b before h small big =
      write_impl-Holds grow cap (le_bytes width v) b before (bound b.size) h small big

  pub Writes-write_string : (s : Text) → Writes (write_string grow s) (c_string s)
  unfolding write_string c_string
  Writes-write_string s cap b before h small big =
      write_impl-Holds grow cap (c_string s) b before (bound b.size) h small big
