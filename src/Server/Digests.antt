-- ===== src/Server/Digests.antt =====
-- src/server.rs, `constant_time_eq`: the comparison of two digests.
use Prim.Native.Nat.{◌*◌, ◌/◌, ◌%◌}
use proveno_gateway.Prelude.{
  ℕ, zero, suc, ◌+◌, ◌<◌, nat_eq, Bool, true, List, [], ◌∷◌, length, All, ◌≡◌, ◌↔◌, refl, ap, ◌∙◌,
  arith, if◌then◌else◌,
}

-- `x ^ y` and `x | y` on integers of `w` bits
unfoldable pub xor : ℕ → ℕ → ℕ → ℕ
xor zero x y = 0
xor (suc w) x y = (x % 2 + y % 2) % 2 + 2 * xor w (x / 2) (y / 2)

unfoldable pub or : ℕ → ℕ → ℕ → ℕ
or zero x y = 0
or (suc w) x y = (if nat_eq (x % 2 + y % 2) 0 then 0 else 1) + 2 * or w (x / 2) (y / 2)

-- `a.iter().zip(b).fold(..)`
unfoldable pub diff : ℕ → List ℕ → List ℕ → ℕ
unfolding or xor
diff acc (x ∷ xs) (y ∷ ys) = diff (or 8 acc (xor 8 x y)) xs ys
diff acc _ _ = acc

unfoldable pub constant_time_eq : List ℕ → List ℕ → Bool
unfolding diff
constant_time_eq a b = nat_eq (diff 0 a b) 0

abbrev pow2 : ℕ → ℕ
pow2 zero = 1
pow2 (suc w) = 2 * pow2 w

xor-eq-0 : (w x y : ℕ) → x < pow2 w → y < pow2 w → (xor w x y ≡ 0) ↔ (x ≡ y)
unfolding xor
xor-eq-0 zero x y h k = (λ e. omega arith, λ e. refl)
xor-eq-0 (suc w) x y h k =
    let (to, from) = xor-eq-0 w (x / 2) (y / 2) (omega arith) (omega arith) in
    (
      λ e. let half = to (omega arith) in omega arith,
      λ e. let half = from (omega arith) in omega arith,
    )

or-eq-0 : (w x y : ℕ) → x < pow2 w → y < pow2 w → (or w x y ≡ 0) ↔ ((x ≡ 0) × (y ≡ 0))
unfolding or
or-eq-0 zero x y h k = (λ e. (omega arith, omega arith), λ e. refl)
or-eq-0 (suc w) x y h k =
    let (to, from) = or-eq-0 w (x / 2) (y / 2) (omega arith) (omega arith) in
    (
      λ e. let half = to (ground arith) in (ground arith, ground arith),
      λ e. let half = from (omega arith, omega arith) in ground arith,
    )

or_lt : (w x y : ℕ) → or w x y < pow2 w
unfolding or
or_lt zero x y = omega arith
or_lt (suc w) x y = ground (arith, or_lt w (x / 2) (y / 2))

xor_lt : (w x y : ℕ) → xor w x y < pow2 w
unfolding xor
xor_lt zero x y = omega arith
xor_lt (suc w) x y = omega (arith, xor_lt w (x / 2) (y / 2))

-- A sequence of bytes.
abbrev pub Bytes : List ℕ → Type 0
Bytes = All (λ (b : ℕ). b < 256)

diff-eq-0 :
    (acc : ℕ) (a b : List ℕ)
    → acc < 256
    → Bytes a
    → Bytes b
    → length a ≡ length b
    → (diff acc a b ≡ 0) ↔ ((acc ≡ 0) × (a ≡ b))
unfolding diff
diff-eq-0 acc [] [] h ha hb same = (λ e. (e, refl), λ e. e.0)
diff-eq-0 acc [] (y ∷ ys) h ha hb same = absurd (omega arith)
diff-eq-0 acc (x ∷ xs) [] h ha hb same = absurd (omega arith)
diff-eq-0 acc (x ∷ xs) (y ∷ ys) h (hx, ha) (hy, hb) same =
    let (to, from) =
      diff-eq-0 (or 8 acc (xor 8 x y)) xs ys (or_lt 8 acc (xor 8 x y)) ha hb (omega arith) in
    let (or_to, or_from) = or-eq-0 8 acc (xor 8 x y) h (xor_lt 8 x y) in
    let (xor_to, xor_from) = xor-eq-0 8 x y hx hy in
    (
      λ e.
          let (o, tail) = to e in
          let (none_before, bits) = or_to o in
          let head = xor_to bits in
          (none_before, ap (λ (z : ℕ). z ∷ xs) head ∙ ap (λ (zs : List ℕ). y ∷ zs) tail),
      λ (zero_acc, same_list). from (or_from (zero_acc, xor_from (cc)), cc),
    )

-- On sequences of bytes of the same length, the comparison holds exactly if they are equal.
pub constant_time_eq_iff :
    (a b : List ℕ)
    → Bytes a
    → Bytes b
    → length a ≡ length b
    → (constant_time_eq a b ≡ true) ↔ (a ≡ b)
unfolding constant_time_eq
constant_time_eq_iff a b ha hb same =
    let (to, from) = diff-eq-0 0 a b (omega arith) ha hb same in
    (λ h. (to (ground arith)).1, λ e. ground (arith, from (refl, e)))
