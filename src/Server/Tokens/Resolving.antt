-- ===== src/Server/Tokens/Resolving.antt =====
-- src/server.rs, `Tokens`: the digests of the configured tokens, and the lookup of a token.
use proveno_gateway.Prelude.{
  ℕ, Text, Option, none, some, List, [], ◌∷◌, Result, ok, err, map_err, ◌>>=◌, if◌then◌else◌,
}
use proveno_gateway.Prelude.Map.{lookup, insert}
use proveno_gateway.Config.{PrincipalConfig, ConfigError}
use proveno_gateway.Config
use proveno_gateway.Server.Digests.{constant_time_eq}

-- Why the tokens are refused.
pub data TokenError : Type 0 where
  unresolved : Text → ConfigError → TokenError
  empty_token : Text → TokenError
  shared_token : (other name : Text) → TokenError

-- The digests by principal, and the principals by digest.
pub record Known : Type 0 where
  pub digests : List (Text × List ℕ)
  pub seen : List (List ℕ × Text)

module _ (var : Text → Option Text) (sha256 : Text → List ℕ) where
  -- one round of the loop of `Tokens::resolve`
  unfoldable pub add_token : Known → Text → Text → Result Known TokenError
  add_token known name [] = err (empty_token name)
  add_token known name (c ∷ token) = elim (lookup (sha256 (c ∷ token)) known.seen) [
    | some other ↦ err (shared_token other name)
    | none ↦ ok (record {
      digests = insert name (sha256 (c ∷ token)) known.digests;
      seen = insert (sha256 (c ∷ token)) name known.seen;
    })
  ]

  unfoldable pub resolve_all : Known → List (Text × PrincipalConfig) → Result Known TokenError
  unfolding add_token
  resolve_all known [] = ok known
  resolve_all known ((name, principal) ∷ rest) = do
    token ← map_err (unresolved name) (Config.resolve var principal.token)
    known' ← add_token known name token
    resolve_all known' rest

  unfoldable pub resolve : List (Text × PrincipalConfig) → Result (List (Text × List ℕ)) TokenError
  unfolding resolve_all
  resolve principals = do
    known ← resolve_all (record { digests = []; seen = [] }) principals
    ok known.digests

-- the loop of `principal_for`, which does not stop at a match
unfoldable pub last_match : List ℕ → Option Text → List (Text × List ℕ) → Option Text
last_match presented found [] = found
last_match presented found ((name, expected) ∷ rest) =
    last_match presented (if constant_time_eq presented expected then some name else found) rest

unfoldable pub principal_for : (sha256 : Text → List ℕ) → List (Text × List ℕ) → Text → Option Text
unfolding last_match
principal_for sha256 tokens token = last_match (sha256 token) none tokens
