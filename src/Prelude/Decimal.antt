-- ===== src/Prelude/Decimal.antt =====
-- The decimal form of integers, as Rust's formatting prints them.
use Prim.Native.Nat.{ℕ, zero, suc, ◌+◌, ◌*◌, ◌/◌, ◌%◌, ◌<◌, ◌-◌}
use mathlib.Core.Path.{◌≡◌, refl}
use mathlib.Core.Logic.{inl, inr}
use mathlib.Core.List.{[], ◌∷◌, ◌++◌}
use native.Mathlib.Omega.{arith}
use proveno_gateway.Prelude.Tests.{ltb, if◌then◌else◌, Bool-cases}
use proveno_gateway.Prelude.Texts.{Text, last_char, last_char-append}
use proveno_gateway.Prelude.Int.{ℤ, pos, negsuc}

-- The digits of `n` in front of nothing; the fuel is above `n`.
digits : ℕ → ℕ → Text
digits zero n = []
digits (suc f) n =
    let higher = digits f (n / 10) in
    if ltb n 10 then (48 + n) ∷ [] else higher ++ (48 + n % 10) ∷ []

unfoldable pub decimal : ℕ → Text
unfolding digits
decimal n = digits (suc n) n

unfoldable pub int_text : ℤ → Text
unfolding decimal
int_text (pos n) = decimal n
int_text (negsuc n) = b'-' ∷ decimal (suc n)

-- The number that a text of digits stands for, after the digits that make up `acc`.
abbrev value : ℕ → Text → ℕ
value acc [] = acc
value acc (c ∷ s) = value (acc * 10 + (c - 48)) s

value-append : (acc : ℕ) (s : Text) (c : ℕ) → value acc (s ++ c ∷ []) ≡ value acc s * 10 + (c - 48)
value-append acc [] c = refl
value-append acc (d ∷ s) c = value-append (acc * 10 + (d - 48)) s c

value-digits : (f n : ℕ) → n < f → value 0 (digits f n) ≡ n
unfolding digits
value-digits zero n h = elim h [ ]
value-digits (suc f) n h = elim (Bool-cases (ltb n 10)) [
  | inl small ↦ rw (small) (omega arith)
  | inr big ↦ rw (big) (
      rw (value-append 0 (digits f (n / 10)) (48 + n % 10))
        (ground (arith, value-digits f (n / 10))))
]

-- The fuel is enough: the printed digits are those of the number.
pub value-decimal : (n : ℕ) → value 0 (decimal n) ≡ n
unfolding decimal
value-decimal n = value-digits (suc n) n (omega arith)

pub last_char-decimal : (n : ℕ) → last_char (decimal n) ≡ 48 + n % 10
unfolding decimal digits last_char
last_char-decimal n = elim (Bool-cases (ltb n 10)) [
  | inl small ↦ rw (small) (ground arith)
  | inr big ↦ rw (big) (last_char-append (digits n (n / 10)) (48 + n % 10) [])
]

append_cons : (s : Text) (d : ℕ) → (y : ℕ) × (t : Text) × (s ++ d ∷ [] ≡ y ∷ t)
append_cons [] d = (d, [], refl)
append_cons (x ∷ s) d = (x, s ++ d ∷ [], refl)

pub decimal_cons : (n : ℕ) → (y : ℕ) × (t : Text) × (decimal n ≡ y ∷ t)
unfolding decimal digits
decimal_cons n = elim (Bool-cases (ltb n 10)) [
  | inl small ↦ (48 + n, [], rw (small) refl)
  | inr big ↦ let (y, t, e) = append_cons (digits n (n / 10)) (48 + n % 10) in (y, t, rw (big) e)
]
