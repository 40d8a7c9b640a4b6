-- ===== src/Server/Requests.antt =====
-- What a request over HTTP can do, from its header to the servers behind the gateway.
use proveno_gateway.Prelude.{
  ℕ, Text, codes, Option, some, List, ◌∷◌, ◌++◌, true, ok, Result, Result-cases, some-inj, ◌≡◌, ◌⊎◌,
  inl, inr, refl, sym, ap, subst, arith,
}
use proveno_gateway.Json.{Members}
use proveno_gateway.Core.{RecordsCalls}
use proveno_gateway.Trace.{Crypto}
use proveno_gateway.Policy.{Policy, PolicyError}
use proveno_gateway.Config.{GatewayConfig}
use proveno_gateway.Downstream.{CallToolResult}
use proveno_gateway.Downstream.Connect.{Connector}
use proveno_gateway.Store.{Codec, Fs}
use proveno_gateway.Host.{Libraries}
use proveno_gateway.Host.Permits.{Permits}
use proveno_gateway.Engine.{Tools, Engine, Moment, run_settings}
use proveno_gateway.Engine.Permits.{execute-Permits}
use proveno_gateway.Engine.Start
use proveno_gateway.Server.{
  ServerLibrary, ExecuteArgs, Reply, passed_on, unauthorized, call_tool, gateway_execute,
  eq_ignore_ascii_case,
}
use proveno_gateway.Server.Tokens.{
  resolve, principal_for, Digests, Configured, principal_for-Configured,
}
use proveno_gateway.Server.Replies.{require_bearer_lem, call_tool-runs}
use proveno_gateway.Server.Start.{Bound, Router, start, handle}

-- A request that went on presented a bearer token that the configuration names for a principal.
pub record Presented (sha256 : Text → List ℕ) (var : Text → Option Text) (config : GatewayConfig)
    (header : Option Text) (who : Text) : Type 0 where
  pub scheme : Text
  pub token : Text
  pub there : header ≡ some (scheme ++ b' ' ∷ token)
  pub bearer : eq_ignore_ascii_case scheme (codes "bearer") ≡ true
  pub configured : Configured sha256 var who (sha256 token) config.principals

module _ {W : Type 0} (libs : Libraries W) (crypto : Crypto) (codec : Codec) (tools : Tools)
    (sha256 : Text → List ℕ) where
  open libs use {rmcp}

  start-tokens :
      (c : Connector W rmcp.Client) (var : Text → Option Text) (policy : Result Policy PolicyError)
      (create_dirs : Result (Unit {0}) Text) (bind : Text → Result Bound Text)
      (config : GatewayConfig) (w : W) (router : Router rmcp.Client crypto.SigningKey)
      → (start libs crypto codec tools sha256 c var policy create_dirs bind config w).0 ≡ ok router
      → resolve var sha256 config.principals ≡ ok router.tokens
  unfolding start
  start-tokens c var policy create_dirs bind config w router h =
      elim (Result-cases (resolve var sha256 config.principals)) [
        | inr (e, refused) ↦ absurd (ground arith)
        | inl (tokens, resolved) ↦
            let built = (Start.new libs crypto codec tools c var policy create_dirs config w).0 in
            elim (Result-cases built) [
              | inr (e, failed) ↦ absurd (ground arith)
              | inl (engine, started) ↦ elim (Result-cases (bind config.server.listen)) [
                | inr (e, taken) ↦ absurd (ground arith)
                | inl (address, bound) ↦ elim (Result-cases address) [
                  | inr (e, unknown) ↦ absurd (ground arith)
                  | inl (u, known) ↦ ground arith
                ]
              ]
            ]
      ]

  module _ (lib : ServerLibrary) (records : RecordsCalls libs.core)
      (engine : Engine rmcp.Client crypto.SigningKey) (moment : Moment) where
    gateway_execute-Permits :
        (who : Text) (a : ExecuteArgs) (fs : Fs) (w : W)
        → Permits libs
            (run_settings libs crypto codec tools engine who)
            w
            (gateway_execute lib libs crypto codec tools engine who a moment fs w).2
    unfolding gateway_execute
    gateway_execute-Permits who a fs w =
        execute-Permits libs crypto codec tools engine who
          (record { program = a.program; session = a.session; request = a.request }) moment records
          fs w

    call_tool-Permits :
        (who name : Text) (args : Option Members) (fs : Fs) (w : W)
        → Permits libs
            (run_settings libs crypto codec tools engine who)
            w
            (call_tool lib libs crypto codec tools engine (some who) name args moment fs w).2
    call_tool-Permits who name args fs w =
        let done = call_tool lib libs crypto codec tools engine (some who) name args moment fs w in
        elim (call_tool-runs lib libs crypto codec tools engine moment (some who) name args fs
          done.1 w done.2 done.0 refl) [
            | inl (a, b) ↦
                subst (Permits libs (run_settings libs crypto codec tools engine who) w) (sym b)
                  Permits.idle
            | inr (p, same, run, a, good, ran) ↦
                subst (Permits libs (run_settings libs crypto codec tools engine who) w)
                  (sym (ap (λ (x : Reply CallToolResult × Fs × W). x.2) ran))
                  (subst
                    (λ (q : Text).
                      Permits libs (run_settings libs crypto codec tools engine q) w
                        (gateway_execute lib libs crypto codec tools engine p a moment fs w).2)
                    (sym (some-inj same)) (gateway_execute-Permits p a fs w))
          ]

  -- Behind a server that started, over digests of 32 bytes and a VM that records its calls: a tool
  -- call over HTTP is turned away, and then nothing is done; or its header is `bearer` in any case
  -- and a token whose digest is that of a token which the configuration names for a principal, and
  -- the servers behind the gateway change only by calls of tools that this principal is shown, with
  -- arguments that fit the schema and that the policy permits the principal.
  pub handle-Permits :
      (bytes : Digests sha256) (records : RecordsCalls libs.core) (lib : ServerLibrary)
      (c : Connector W rmcp.Client) (var : Text → Option Text) (policy : Result Policy PolicyError)
      (create_dirs : Result (Unit {0}) Text) (bind : Text → Result Bound Text)
      (config : GatewayConfig) (w0 : W) (router : Router rmcp.Client crypto.SigningKey)
      (header : Option Text) (name : Text) (args : Option Members) (moment : Moment) (fs : Fs)
      (w : W)
      → (start libs crypto codec tools sha256 c var policy create_dirs bind config w0).0 ≡ ok router
      → (handle libs crypto codec tools sha256 lib router header name args moment fs w
          ≡ unauthorized)
        ⊎ (who : Text) × (r : Reply CallToolResult) × (fs' : Fs) × (w' : W) × (handle libs crypto
              codec tools sha256 lib router header name args moment fs w
            ≡ passed_on (r, fs', w'))
          × Presented sha256 var config header who
          × Permits libs (run_settings libs crypto codec tools router.engine who) w w'
  unfolding handle
  handle-Permits bytes records lib c var policy create_dirs bind config w0 router header name args
        moment fs w started =
      elim (require_bearer_lem (principal_for sha256 router.tokens)
        (λ who.
          call_tool lib libs crypto codec tools router.engine (some who) name args moment fs w)
        header) [
          | inr (away, unnamed) ↦ inl away
          | inl (who, n, passed) ↦
              let done =
                call_tool lib libs crypto codec tools router.engine (some who) name args moment fs
                  w in
              inr (
                who,
                done.0,
                done.1,
                done.2,
                passed,
                record {
                  scheme = n.scheme;
                  token = n.token;
                  there = n.given;
                  bearer = n.bearer;
                  configured =
                      principal_for-Configured sha256 bytes var config.principals router.tokens
                        n.token who
                        (start-tokens c var policy create_dirs bind config w0 router started)
                        n.known;
                },
                call_tool-Permits lib records router.engine moment who name args fs w,
              )
        ]
