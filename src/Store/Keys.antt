-- ===== src/Store/Keys.antt =====
-- The keys and paths of the store (src/store.rs), and its errors.
use proveno_gateway.Prelude.{
  ℕ, leb, nat_eq, Text, codes, ends_with_char, Bool, true, false, ◌&&◌, ◌||◌, not, [], ◌∷◌, ◌++◌,
  all, Result, ok, err, if◌then◌else◌,
}

pub data StoreError : Type 0 where
  io : Text → StoreError
  invalid_key : Text → StoreError
  trace_exists : Text → StoreError
  conflict : (kind key : Text) → StoreError
  json : Text → StoreError

pub record TraceStore : Type 0 where
  pub traces : Text
  pub programs : Text
  pub descriptions : Text

-- a directory, ready for a name behind it
unfoldable pub with_separator : Text → Text
with_separator [] = []
with_separator (c ∷ dir) = if ends_with_char b'/' (c ∷ dir) then c ∷ dir else (c ∷ dir) ++ b'/' ∷ []

-- `Path::join`: an absolute second part replaces the first.
unfoldable pub join_path : Text → Text → Text
unfolding with_separator
join_path dir [] = with_separator dir
join_path dir (c ∷ name) = if nat_eq c b'/' then c ∷ name else with_separator dir ++ c ∷ name

-- `TraceStore::open`, less the making of the directories
unfoldable pub open_store : Text → TraceStore
open_store dir = record {
  traces = join_path dir (codes "traces");
  programs = join_path dir (codes "programs");
  descriptions = join_path dir (codes "descriptions");
}

-- `b.is_ascii_digit() || (b'a'..=b'f').contains(&b) || b == b'-'`
unfoldable pub is_key_byte : ℕ → Bool
is_key_byte b = leb b'0' b && leb b b'9' || leb b'a' b && leb b b'f' || nat_eq b b'-'

abbrev is_empty : Text → Bool
is_empty [] = true
is_empty (c ∷ s) = false

unfoldable pub is_valid_key : Text → Bool
unfolding is_key_byte
is_valid_key key = not (is_empty key) && all is_key_byte key

unfoldable pub key_path : Text → Text → Text → Result Text StoreError
unfolding is_valid_key
key_path dir key ext =
    if not (is_valid_key key) then err (invalid_key key) else ok (join_path dir (key ++ b'.' ∷ ext))
