-- ===== src/Store/Laws.antt =====
-- The store keeps what it has, and gives back what was put.
use Prim.Native.Nat.{◌%◌}
use proveno_gateway.Prelude.{
  ℕ, ◌+◌, Text, codes, last_char, last_char-append, last_char-decimal, decimal, decimal_cons,
  nat_eq, has_char, true, false, Bool-cases, all, [], ◌∷◌, ◌++◌, ok, ◌≡◌, ◌≢◌, refl, ap, sym, ◌∙◌,
  inl, inr, arith,
}
use mathlib.Core.List.{append_assoc}
use proveno_gateway.Store.{
  Fs, join_path, with_separator, is_key_byte, is_valid_key, key_path, temp_name,
}

last_char-join :
    (dir s : Text) (y : ℕ) (t : Text) → last_char (join_path dir (s ++ y ∷ t)) ≡ last_char (y ∷ t)
unfolding join_path
last_char-join dir [] y t = elim (Bool-cases (nat_eq y b'/')) [
  | inl e ↦ rw (e) refl
  | inr e ↦ rw (e) (last_char-append (with_separator dir) y t)
]
last_char-join dir (c ∷ s) y t = elim (Bool-cases (nat_eq c b'/')) [
  | inl e ↦ rw (e) (last_char-append (c ∷ s) y t)
  | inr e ↦ rw (e) (
      ap last_char (sym (append_assoc (with_separator dir) (c ∷ s) (y ∷ t)))
      ∙ last_char-append (with_separator dir ++ c ∷ s) y t)
]

-- A path of the store ends as its extension does.
pub last_char-key_path :
    (dir key ext path : Text)
    → key_path dir key ext ≡ ok path
    → last_char path ≡ last_char (b'.' ∷ ext)
unfolding key_path
last_char-key_path dir key ext path h = elim (Bool-cases (is_valid_key key)) [
  | inl e ↦ ground (arith, last_char-join dir key b'.' ext)
  | inr e ↦ absurd (ground arith)
]

-- A temp file's name ends in a digit.
pub last_char-temp :
    (dir : Text) (fs : Fs) → last_char (join_path dir (temp_name fs)) ≡ 48 + fs.counter % 10
unfolding temp_name
last_char-temp dir fs =
    let (y, t, e) = decimal_cons fs.counter in
    rw (e) (
      last_char-join dir (codes ".tmp-" ++ decimal fs.pid ++ codes "-") y t
      ∙ (rw (sym e) (last_char-decimal fs.counter)))

is_key_byte-ne : (b : ℕ) → is_key_byte b ≡ true → (nat_eq b b'/' ≡ false) × (nat_eq b b'.' ≡ false)
unfolding is_key_byte
is_key_byte-ne b h = ground arith

all-has_char :
    (key : Text)
    → all is_key_byte key ≡ true
    → (has_char b'/' key ≡ false) × (has_char b'.' key ≡ false)
unfolding has_char
all-has_char [] h = (refl, refl)
all-has_char (b ∷ key) h = ground (arith, is_key_byte-ne b, all-has_char key)

-- A key that the store takes is not empty and has neither a separator nor a dot, so its file lies
-- in the directory and is no temp file, and the path is the directory, the key and the extension.
pub key_path_stays :
    (dir key ext path : Text)
    → key_path dir key ext ≡ ok path
    → (path ≡ with_separator dir ++ (key ++ b'.' ∷ ext))
      × (key ≢ [])
      × (has_char b'/' key ≡ false)
      × (has_char b'.' key ≡ false)
unfolding key_path join_path has_char
key_path_stays dir [] ext path h = absurd (ground arith)
key_path_stays dir (c ∷ key) ext path h = elim (Bool-cases (is_valid_key (c ∷ key))) [
  | inr bad ↦ absurd (ground arith)
  | inl good ↦
      let plain = all-has_char (c ∷ key) (ground arith) in
      let head = is_key_byte-ne c (ground arith) in (ground arith, λ e. cc, plain.0, plain.1)
]
