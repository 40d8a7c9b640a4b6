-- ===== src/Server/Bearer.antt =====
-- src/server.rs: the bearer check in front of every request.
use proveno_gateway.Prelude.{
  ℕ, leb, ◌+◌, Text, codes, ◌==◌, split_once, Bool, ◌&&◌, Option, none, some, map, if◌then◌else◌,
}

-- `c.to_ascii_lowercase()`
abbrev lowercase : ℕ → ℕ
lowercase c = if leb b'A' c && leb c b'Z' then c + 32 else c

unfoldable pub eq_ignore_ascii_case : Text → Text → Bool
eq_ignore_ascii_case s t = map lowercase s == map lowercase t

-- the chain of `require_bearer` on the `Authorization` header, if there is one and it is text
unfoldable pub bearer_token : Option Text → Option Text
unfolding eq_ignore_ascii_case
bearer_token none = none
bearer_token (some value) = elim (split_once b' ' value) [
  | none ↦ none
  | some (scheme, token) ↦ if eq_ignore_ascii_case scheme (codes "bearer") then some token else none
]

pub data Response (R : Type 0) : Type 0 where
  passed_on : R → Response R
  unauthorized : Response R

abbrev and_then : Option Text → (Text → Option Text) → Option Text
and_then none f = none
and_then (some a) f = f a

-- `require_bearer`: `principal_for` is that of the tokens, `next` what runs behind it.
unfoldable pub require_bearer :
    {R : Type 0} (principal_for : Text → Option Text) (next : Text → R) → Option Text → Response R
unfolding bearer_token
require_bearer principal_for next header = elim (and_then (bearer_token header) principal_for) [
  | some name ↦ passed_on (next name)
  | none ↦ unauthorized
]
