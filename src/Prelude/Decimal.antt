-- ===== src/Prelude/Decimal.antt =====
-- `std::to_string` of an unsigned number: its decimal digits, highest first.
use Prim.Native.Nat.{ℕ, zero, suc, ◌+◌, ◌*◌, ◌/◌, ◌%◌, ◌-◌, ◌<◌}
use mathlib.Core.Path.{◌≡◌, refl, sym, ap, ◌∙◌}
use mathlib.Core.Bool.{true}
use mathlib.Core.List.{[], ◌∷◌, ◌++◌}
use native.Mathlib.Omega.{arith}
use universal_symbols.Prelude.Tests.{Bool-cases, ltb, ◌==◌, if◌then◌else◌}
use mathlib.Core.Logic.{inl, inr}
use universal_symbols.Prelude.Lists.{All, All-append}
use universal_symbols.Prelude.Texts.{Text, text_eq, text_eq→eq, text_eq_refl}

-- Each round takes a digit, so more rounds than the number's value are enough.
digits : ℕ → ℕ → Text
digits zero n = []
digits (suc fuel) n =
    let more = digits fuel (n / 10) ++ ((48 + n % 10) ∷ []) in
    if ltb n 10 then (48 + n) ∷ [] else more

unfoldable pub to_string : ℕ → Text
unfolding digits
to_string n = digits (suc n) n

value : ℕ → Text → ℕ
value acc [] = acc
value acc (c ∷ s) = value (acc * 10 + (c - 48)) s

value_last : (acc : ℕ) (s : Text) (c : ℕ) → value acc (s ++ (c ∷ [])) ≡ value acc s * 10 + (c - 48)
unfolding value
value_last acc [] c = refl
value_last acc (d ∷ s) c = value_last (acc * 10 + (d - 48)) s c

value_one : (k : ℕ) → value 0 ((48 + k) ∷ []) ≡ k
unfolding value
value_one k = omega arith

value-digits : (fuel n : ℕ) → n < fuel → value 0 (digits fuel n) ≡ n
unfolding digits
value-digits zero n h = absurd (omega arith)
value-digits (suc fuel) n h = ground (
  arith,
  value_last 0 (digits fuel (n / 10)) (48 + n % 10),
  value-digits fuel (n / 10),
  value_one n,
)

-- Two numbers with the same digits are one.
pub to_string-injective : (m n : ℕ) → text_eq (to_string m) (to_string n) ≡ true → m ≡ n
unfolding to_string
to_string-injective m n h =
    sym (value-digits (suc m) m (omega arith))
    ∙ ap (value 0) (text_eq→eq _ _ h)
    ∙ value-digits (suc n) n (omega arith)

eq_to_string : (m n : ℕ) → m ≡ n → text_eq (to_string m) (to_string n) ≡ true
eq_to_string m n e = rw e (text_eq_refl (to_string n))

pub text_eq-to_string : (m n : ℕ) → text_eq (to_string m) (to_string n) ≡ (m == n)
text_eq-to_string m n = ground (arith, to_string-injective m n, eq_to_string m n)

digits-ascii : (fuel n : ℕ) → All (λ c. c < 0x80) (digits fuel n)
unfolding digits
digits-ascii zero n = tt
digits-ascii (suc fuel) n = elim (Bool-cases (ltb n 10)) [
  | inl small ↦ rw small (ground arith, tt)
  | inr large ↦ rw large (
      All-append (λ c. c < 0x80) (digits fuel (n / 10)) ((48 + n % 10) ∷ [])
        (digits-ascii fuel (n / 10)) (omega arith, tt))
]

pub to_string-ascii : (n : ℕ) → All (λ c. c < 0x80) (to_string n)
unfolding to_string
to_string-ascii n = digits-ascii (suc n) n
