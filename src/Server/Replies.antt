-- ===== src/Server/Replies.antt =====
-- What the server does with a request, by who made it and which tool it names.
use proveno_gateway.Prelude.{
  Text, codes, ◌==◌, eq_iff, true, false, Bool-cases, Option, none, some, Option-cases, ◌∷◌,
  split_once, ok, Result-cases, ◌≡◌, ◌⊎◌, inl, inr, refl, ap, arith, split_once-eq-some,
  split_once-append, ◌++◌, has_char,
}
use proveno_gateway.Json.{Members}
use proveno_gateway.Trace.{Crypto}
use proveno_gateway.Downstream.{CallToolResult}
use proveno_gateway.Store.{Codec, Fs}
use proveno_gateway.Host.{Libraries}
use proveno_gateway.Engine.{Tools, Engine, Moment}
use proveno_gateway.Server.{
  ServerLibrary, Reply, passed_on, unauthorized, require_bearer, bearer_token, eq_ignore_ascii_case,
  call_tool, call_named, principal, arguments, gateway_execute,
}

-- The header is the scheme `bearer` in any case, a space, and a token of the principal `who`.
pub record NamedBy (principal_for : Text → Option Text) (header : Option Text) (who : Text)
    : Type 0 where
  pub scheme : Text
  pub token : Text
  pub given : header ≡ some (scheme ++ b' ' ∷ token)
  pub plain : has_char b' ' scheme ≡ false
  pub bearer : eq_ignore_ascii_case scheme (codes "bearer") ≡ true
  pub known : principal_for token ≡ some who

module _ {R : Type 0} (principal_for : Text → Option Text) (next : Text → R) where
  -- A request whose header names a principal goes on as that principal.
  NamedBy-passed_on :
      (header : Option Text) (who : Text)
      → NamedBy principal_for header who
      → require_bearer principal_for next header ≡ passed_on (next who)
  unfolding require_bearer bearer_token
  NamedBy-passed_on header who n =
      rw (n.given)
        (ground (arith, split_once-append b' ' n.scheme n.token n.plain, n.bearer, n.known))

  passed-ne-unauthorized :
      (header : Option Text) (who : Text)
      → NamedBy principal_for header who
      → require_bearer principal_for next header ≡ unauthorized
      → ⊥
  passed-ne-unauthorized header who n h = let p = NamedBy-passed_on header who n in cc

  away :
      (value : Text)
      → require_bearer principal_for next (some value) ≡ unauthorized
      → (require_bearer principal_for next (some value) ≡ unauthorized)
        × ((who : Text) → ¬ NamedBy principal_for (some value) who)
  away value h = (h, λ who n. passed-ne-unauthorized (some value) who n h)

  -- A request goes on, as the principal that its token names, exactly if its header is the scheme
  -- `bearer` in any case, a space, and a token that names one; a request is turned away exactly if
  -- its header is not of this form for any principal.
  pub require_bearer_lem :
      (header : Option Text)
      → ((who : Text) × NamedBy principal_for header who
          × (require_bearer principal_for next header ≡ passed_on (next who)))
        ⊎ ((require_bearer principal_for next header ≡ unauthorized)
            × ((who : Text) → ¬ NamedBy principal_for header who))
  unfolding require_bearer bearer_token
  require_bearer_lem none = inr (refl, λ who n. passed-ne-unauthorized none who n refl)
  require_bearer_lem (some value) = elim (Option-cases (split_once b' ' value)) [
    | inl whole ↦ inr (away value (ground arith))
    | inr ((scheme, token), e) ↦ elim (Bool-cases (eq_ignore_ascii_case scheme (codes "bearer"))) [
      | inr other ↦ inr (away value (ground arith))
      | inl bearer ↦ elim (Option-cases (principal_for token)) [
        | inl unknown ↦ inr (away value (ground arith))
        | inr (name, known) ↦
            let (f, g) = split_once-eq-some b' ' value scheme token e in
            inl (
              name,
              record {
                scheme = scheme;
                token = token;
                given = ap some f;
                plain = g;
                bearer = bearer;
                known = known;
              },
              ground arith,
            )
      ]
    ]
  ]

module _ (lib : ServerLibrary) {W : Type 0} (libs : Libraries W) (crypto : Crypto) (codec : Codec)
    (tools : Tools) (engine : Engine libs.rmcp.Client crypto.SigningKey) (moment : Moment) where
  -- Only an `execute` by a principal whose arguments can be read runs anything: any other call leaves
  -- the files and the servers as they were.
  pub call_tool-runs :
      (who : Option Text) (name : Text) (args : Option Members) (fs fs' : Fs) (w w' : W)
      (r : Reply CallToolResult)
      → call_tool lib libs crypto codec tools engine who name args moment fs w ≡ (r, fs', w')
      → ((fs' ≡ fs) × (w' ≡ w))
        ⊎ (p : Text) × (who ≡ some p)
          × (name ≡ codes "execute")
          × (a : _) × (lib.execute_args (arguments args) ≡ ok a)
          × ((r, fs', w') ≡ gateway_execute lib libs crypto codec tools engine p a moment fs w)
  unfolding call_tool call_named principal
  call_tool-runs none name args fs fs' w w' r h = inl (ground arith, ground arith)
  call_tool-runs (some p) name args fs fs' w w' r h = elim (Bool-cases (name == codes "execute")) [
    | inl run ↦ elim (Result-cases (lib.execute_args (arguments args))) [
      | inr (e, bad) ↦ inl (ground arith, ground arith)
      | inl (a, good) ↦ inr (p, refl, (eq_iff name (codes "execute")).0 run, a, good, ground arith)
    ]
    | inr other ↦ elim (Bool-cases (name == codes "check")) [
      | inl checked ↦ elim (Result-cases (lib.check_args (arguments args))) [
        | inr (e, bad) ↦ inl (ground arith, ground arith)
        | inl (a, good) ↦ inl (ground arith, ground arith)
      ]
      | inr unknown ↦ inl (ground arith, ground arith)
    ]
  ]
