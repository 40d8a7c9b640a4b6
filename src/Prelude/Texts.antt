-- ===== src/Prelude/Texts.antt =====
-- Rust's strings, as the list of their characters' code points. The order of texts is that of the
-- code points, which is the order of their UTF-8 bytes. A byte buffer is a list of numbers too.
use Prim.Native.Nat.{ℕ, suc, compare, Ordering}
use Prim.Native.Char.{code}
use Prim.Native.String.{String}
use mathlib.Core.Path.{◌≡◌, refl}
use mathlib.Core.Logic.{◌↔◌, inl, inr}
use mathlib.Core.Bool.{Bool, true, false, ◌&&◌, ◌||◌}
use mathlib.Core.Option.{Option, none, some}
use mathlib.Core.List.{List, [], ◌∷◌, ◌++◌}
use native.Mathlib.Omega.{arith}
use proveno_gateway.Prelude.Tests.{nat_eq, leb, if◌then◌else◌, Bool-cases, Option-cases}

abbrev pub Text : Type 0
Text = List ℕ

-- A literal of the source.
unfoldable pub codes : String → Text
codes String.[] = []
codes (String.◌∷◌ c s) = code c ∷ codes s

infix 50 ◌==◌
unfoldable pub ◌==◌ : Text → Text → Bool
[] == [] = true
[] == (y ∷ ys) = false
(x ∷ xs) == [] = false
(x ∷ xs) == (y ∷ ys) = nat_eq x y && xs == ys

pub eq_iff : (s t : Text) → ((s == t) ≡ true) ↔ (s ≡ t)
unfolding ◌==◌
eq_iff [] [] = ground arith
eq_iff [] (y ∷ ys) = ground arith
eq_iff (x ∷ xs) [] = ground arith
eq_iff (x ∷ xs) (y ∷ ys) = ground (arith, eq_iff xs ys)

pub eq_refl : (s : Text) → (s == s) ≡ true
eq_refl s = (eq_iff s s).1 refl

-- `starts_with`
unfoldable pub starts_with : Text → Text → Bool
starts_with s [] = true
starts_with [] (p ∷ ps) = false
starts_with (x ∷ xs) (p ∷ ps) = nat_eq x p && starts_with xs ps

-- `contains` of a text in a text
unfoldable pub has_text : Text → Text → Bool
unfolding starts_with
has_text [] p = starts_with [] p
has_text (x ∷ xs) p = let rest = has_text xs p in if starts_with (x ∷ xs) p then true else rest

-- `strip_prefix`
unfoldable pub strip_prefix : Text → Text → Option Text
strip_prefix s [] = some s
strip_prefix [] (p ∷ ps) = none
strip_prefix (x ∷ xs) (p ∷ ps) = let rest = strip_prefix xs ps in if nat_eq x p then rest else none

-- `contains` of a character
unfoldable pub has_char : ℕ → Text → Bool
has_char c [] = false
has_char c (x ∷ xs) = if nat_eq x c then true else has_char c xs

-- `matches(c).count()`
unfoldable pub count_char : ℕ → Text → ℕ
count_char c [] = 0
count_char c (x ∷ xs) = let rest = count_char c xs in if nat_eq x c then suc rest else rest

abbrev pub in_head : ℕ → Option (Text × Text) → Option (Text × Text)
in_head x none = none
in_head x (some (a, b)) = some (x ∷ a, b)

-- `split_once(c)`: at the first occurrence
unfoldable pub split_once : ℕ → Text → Option (Text × Text)
split_once c [] = none
split_once c (x ∷ xs) =
    let rest = in_head x (split_once c xs) in if nat_eq x c then some ([], xs) else rest

-- `a.cmp(b) == Less`
unfoldable pub text_lt : Text → Text → Bool
text_lt [] [] = false
text_lt [] (y ∷ ys) = true
text_lt (x ∷ xs) [] = false
text_lt (x ∷ xs) (y ∷ ys) =
    let rest = text_lt xs ys in
    elim (compare x y) [ Ordering.lt ↦ true | Ordering.eq ↦ rest | Ordering.gt ↦ false ]

-- `[a, b, c].join(sep)`
unfoldable pub join : Text → List Text → Text
join sep [] = []
join sep (x ∷ []) = x
join sep (x ∷ y ∷ r) = x ++ sep ++ join sep (y ∷ r)

unfoldable pub concat : List Text → Text
concat [] = []
concat (x ∷ xs) = x ++ concat xs

pub text_lt_irrefl : (s : Text) → text_lt s s ≡ false
unfolding text_lt
text_lt_irrefl [] = refl
text_lt_irrefl (x ∷ xs) = ground (arith, text_lt_irrefl xs)

pub text_lt_trans : (a b c : Text) → text_lt a b ≡ true → text_lt b c ≡ true → text_lt a c ≡ true
unfolding text_lt
text_lt_trans [] [] c h k = cc
text_lt_trans [] (y ∷ b) [] h k = cc
text_lt_trans [] (y ∷ b) (z ∷ c) h k = refl
text_lt_trans (x ∷ a) [] c h k = cc
text_lt_trans (x ∷ a) (y ∷ b) [] h k = cc
text_lt_trans (x ∷ a) (y ∷ b) (z ∷ c) h k = ground (arith, text_lt_trans a b c)

pub text_lt_asymm : (a b : Text) → text_lt a b ≡ true → text_lt b a ≡ false
unfolding text_lt
text_lt_asymm [] [] h = cc
text_lt_asymm [] (y ∷ b) h = refl
text_lt_asymm (x ∷ a) [] h = cc
text_lt_asymm (x ∷ a) (y ∷ b) h = ground (arith, text_lt_asymm a b)

pub text_lt_total : (a b : Text) → text_lt a b ≡ false → text_lt b a ≡ false → a ≡ b
unfolding text_lt
text_lt_total [] [] h k = refl
text_lt_total [] (y ∷ b) h k = cc
text_lt_total (x ∷ a) [] h k = cc
text_lt_total (x ∷ a) (y ∷ b) h k = ground (arith, text_lt_total a b)

in_head-eq-some :
    (x : ℕ) (o : Option (Text × Text)) (a b : Text)
    → in_head x o ≡ some (a, b)
    → (a' : Text) × (o ≡ some (a', b)) × (a ≡ x ∷ a')
in_head-eq-some x none a b h = cc
in_head-eq-some x (some (a', b')) a b h = (a', ground arith, ground arith)

-- The two halves of a split give the text back, and the first has no separator.
pub split_once-eq-some :
    (c : ℕ) (s a b : Text)
    → split_once c s ≡ some (a, b)
    → (s ≡ a ++ c ∷ b) × (has_char c a ≡ false)
unfolding split_once has_char
split_once-eq-some c [] a b h = cc
split_once-eq-some c (x ∷ xs) a b h = elim (Bool-cases (nat_eq x c)) [
  | inl same ↦ ground arith
  | inr other ↦
      let (a', e, f) = in_head-eq-some x (split_once c xs) a b (ground arith) in
      rw f (ground (arith, split_once-eq-some c xs a' b e))
]

-- A text with no separator in front of one is split there.
pub split_once-append :
    (c : ℕ) (a b : Text) → has_char c a ≡ false → split_once c (a ++ c ∷ b) ≡ some (a, b)
unfolding split_once has_char
split_once-append c [] b h = ground arith
split_once-append c (x ∷ a) b h = ground (arith, split_once-append c a b)

-- `strip_suffix`
unfoldable pub strip_suffix : Text → Text → Option Text
strip_suffix [] p = if [] == p then some [] else none
strip_suffix (x ∷ xs) p =
    let rest = strip_suffix xs p in
    if (x ∷ xs) == p then some [] else elim rest [ none ↦ none | some r ↦ some (x ∷ r) ]

pub strip_suffix-eq-some : (s p r : Text) → strip_suffix s p ≡ some r → s ≡ r ++ p
unfolding strip_suffix
strip_suffix-eq-some [] p r h = ground (arith, eq_iff [] p)
strip_suffix-eq-some (x ∷ xs) p r h = elim (Bool-cases ((x ∷ xs) == p)) [
  | inl same ↦ ground (arith, eq_iff (x ∷ xs) p)
  | inr other ↦ elim (Option-cases (strip_suffix xs p)) [
    | inl e ↦ ground arith
    | inr (r', e) ↦ ground (arith, strip_suffix-eq-some xs p r' e)
  ]
]

-- `ends_with` of a character
unfoldable pub ends_with_char : ℕ → Text → Bool
ends_with_char c [] = false
ends_with_char c (x ∷ []) = nat_eq x c
ends_with_char c (x ∷ y ∷ s) = ends_with_char c (y ∷ s)

-- the last character, 0 if there is none
unfoldable pub last_char : Text → ℕ
last_char [] = 0
last_char (x ∷ []) = x
last_char (x ∷ y ∷ s) = last_char (y ∷ s)

pub last_char-append : (s : Text) (y : ℕ) (t : Text) → last_char (s ++ y ∷ t) ≡ last_char (y ∷ t)
unfolding last_char
last_char-append [] y t = refl
last_char-append (x ∷ []) y t = refl
last_char-append (x ∷ z ∷ s) y t = last_char-append (z ∷ s) y t

-- `char::is_whitespace`: the characters with Unicode's White_Space
unfoldable pub is_whitespace : ℕ → Bool
is_whitespace c =
    leb 9 c && leb c 13
    || nat_eq c 0x20
    || nat_eq c 0x85
    || nat_eq c 0xA0
    || nat_eq c 0x1680
    || leb 0x2000 c && leb c 0x200A
    || nat_eq c 0x2028
    || nat_eq c 0x2029
    || nat_eq c 0x202F
    || nat_eq c 0x205F
    || nat_eq c 0x3000

-- a character in front of the first word, which begins where `fresh`
abbrev pub add_to_word : ℕ → Bool → List Text → List Text
add_to_word c true ws = (c ∷ []) ∷ ws
add_to_word c false [] = (c ∷ []) ∷ []
add_to_word c false (w ∷ ws) = (c ∷ w) ∷ ws

-- the word that `c` stands in ends with it
abbrev pub ends_word : Text → Bool
ends_word [] = true
ends_word (d ∷ s) = is_whitespace d

-- `split_whitespace`
unfoldable pub split_whitespace : Text → List Text
unfolding is_whitespace
split_whitespace [] = []
split_whitespace (c ∷ s) =
    let rest = split_whitespace s in
    if is_whitespace c then rest else add_to_word c (ends_word s) rest

-- `chars().filter(|c| !c.is_whitespace())`
unfoldable pub compact : Text → Text
unfolding is_whitespace
compact [] = []
compact (c ∷ s) = let rest = compact s in if is_whitespace c then rest else c ∷ rest

-- `trim_end_matches(c)`
unfoldable pub trim_end : ℕ → Text → Text
trim_end c [] = []
trim_end c (x ∷ s) = elim (trim_end c s) [
  | [] ↦ if nat_eq x c then [] else x ∷ []
  | y ∷ r ↦ x ∷ y ∷ r
]

abbrev pub add_to_line : ℕ → List Text → List Text
add_to_line c [] = (c ∷ []) ∷ []
add_to_line c (l ∷ ls) = (c ∷ l) ∷ ls

-- `lines`: a line ends at "\n" or "\r\n", and the text's end closes a line that is not empty
unfoldable pub lines : Text → List Text
unfolding starts_with
lines [] = []
lines (c ∷ s) =
    let rest = lines s in
    if nat_eq c b'\n'
    then [] ∷ rest
    else if nat_eq c b'\r' && starts_with s (b'\n' ∷ [])
    then rest
    else add_to_line c rest

-- `split_once` at a text
unfoldable pub split_once_at : Text → Text → Option (Text × Text)
unfolding strip_prefix
split_once_at sep [] = none
split_once_at sep (x ∷ s) =
    let later = in_head x (split_once_at sep s) in
    elim (strip_prefix (x ∷ s) sep) [ some rest ↦ some ([], rest) | none ↦ later ]

-- text literals, a line each, with a line end after each
unfoldable pub text_of_lines : List String → Text
unfolding codes
text_of_lines [] = []
text_of_lines (l ∷ ls) = codes l ++ b'\n' ∷ text_of_lines ls

-- text literals with line ends between them
unfoldable pub join_lines : List String → Text
unfolding codes
join_lines [] = []
join_lines (l ∷ []) = codes l
join_lines (l ∷ k ∷ ls) = codes l ++ b'\n' ∷ join_lines (k ∷ ls)
