-- ===== src/Elf/Parse/Tables.antt =====
-- Reading tables: structures of one kind, one behind another.
use universal_symbols.Prelude.{
  ℕ, ◌+◌, ◌≡◌, List, [], ◌∷◌, ◌++◌, some, length, All, arith, length-append,
}
use universal_symbols.ReCore.Buffer.{Buffer}
use universal_symbols.ReCore.Reader.Bounds.{IsLoaded}
use universal_symbols.ReCore.Reader.Stands.{Stands, Stands_left, Stands_right}
use universal_symbols.Elf.Parse.{Parser, times}
use universal_symbols.Elf.Parse.Structures.{behind}

unfoldable pub table : {A : Type 0} → (A → List ℕ) → List A → List ℕ
table bytes_of [] = []
table bytes_of (x ∷ xs) = bytes_of x ++ table bytes_of xs

-- What `parse_shdr-Stands` and the like say of a step.
abbrev pub Decodes : {A : Type 0} → List ℕ → Parser A → (A → List ℕ) → (A → Type 0) → Type 0
Decodes {A} bytes step bytes_of IsOk =
    (r : Buffer)
    → IsLoaded r bytes
    → (x : A) → IsOk x
    → Stands bytes r.position (bytes_of x)
    → step r ≡ some (behind (length (bytes_of x)) r, x)

pub times-table :
    {A : Type 0} (bytes : List ℕ) (step : Parser A) (bytes_of : A → List ℕ) (IsOk : A → Type 0)
    → Decodes bytes step bytes_of IsOk
    → (xs : List A) (r : Buffer) → IsLoaded r bytes
    → All IsOk xs
    → Stands bytes r.position (table bytes_of xs)
    → times (length xs) step r ≡ some (behind (length (table bytes_of xs)) r, xs)
unfolding times table
times-table bytes step bytes_of IsOk reads [] r h ok s =
    let same : r.position ≡ r.position + 0 = omega arith in
    λ i. some (record r { position = same i }, [])
times-table bytes step bytes_of IsOk reads (x ∷ xs) r h ok s =
    let here = reads r h x ok.0 (Stands_left bytes (bytes_of x) _ r.position s) in
    let r1 = behind (length (bytes_of x)) r in
    let there =
      times-table bytes step bytes_of IsOk reads xs r1 (record { memory = h.memory; size = h.size })
        ok.1 (Stands_right bytes (bytes_of x) _ r.position s) in
    let same : (r.position + length (bytes_of x)) + length (table bytes_of xs)
        ≡ r.position + length (bytes_of x ++ table bytes_of xs) =
      omega (arith, length-append (bytes_of x) (table bytes_of xs)) in
    rw (here, there) (λ i. some (record r { position = same i }, x ∷ xs))
