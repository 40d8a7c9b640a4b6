-- ===== src/Server/Start.antt =====
-- src/server.rs, `start`: what has to succeed before the server answers, and what answers then.
use proveno_gateway.Prelude.{
  ℕ, Text, codes, Option, some, List, ◌++◌, Result, ok, err, ◌>>=◌, map_err,
}
use proveno_gateway.Json.{Members}
use proveno_gateway.Trace.{Crypto}
use proveno_gateway.Policy.{Policy, PolicyError}
use proveno_gateway.Config.{GatewayConfig}
use proveno_gateway.Downstream.{CallToolResult}
use proveno_gateway.Downstream.Connect.{Connector}
use proveno_gateway.Store.{Codec, Fs}
use proveno_gateway.Host.{Libraries}
use proveno_gateway.Engine.{Tools, Engine, Moment}
use proveno_gateway.Engine.Start.{StartError}
use proveno_gateway.Engine.Start
use proveno_gateway.Server.{ServerLibrary, Reply, Response, require_bearer, call_tool}
use proveno_gateway.Server.Tokens.{TokenError, resolve, principal_for}

-- Why the server does not start, in the order of the steps.
pub data NotStarted : Type 0 where
  tokens_refused : TokenError → NotStarted
  engine_failed : StartError → NotStarted
  not_bound : Text → NotStarted
  no_address : Text → NotStarted

-- What a bound listener says to the question for its address.
abbrev pub Bound : Type 0
Bound = Result (Unit {0}) Text

-- What serves: the digests of the tokens, and the engine.
pub record Router (Client SigningKey : Type 0) : Type 0 where
  pub tokens : List (Text × List ℕ)
  pub engine : Engine Client SigningKey

pub listen_context : Text → Text → Text
listen_context listen e = codes "server.listen `" ++ listen ++ codes "`: " ++ e

-- How serving ends: the task of the server is over, or it panicked; or the interrupt came, or could
-- not be waited for.
pub data Ended : Type 0 where
  task_over : Result (Result (Unit {0}) Text) Text → Ended
  interrupted : Result (Unit {0}) Text → Ended

-- the `select!` of `serve`
pub ended_with : Ended → Result (Unit {0}) Text
ended_with (task_over (err e)) = err (codes "server task: " ++ e)
ended_with (task_over (ok (err e))) = err (codes "server: " ++ e)
ended_with (task_over (ok (ok u))) = ok u
ended_with (interrupted (err e)) = err (codes "wait for ctrl-c: " ++ e)
ended_with (interrupted (ok u)) = ok u

module _ {W : Type 0} (libs : Libraries W) (crypto : Crypto) (codec : Codec) (tools : Tools)
    (sha256 : Text → List ℕ) where
  open libs use {rmcp}

  -- `bind` is what the system says to binding an address.
  unfoldable pub start :
      Connector W rmcp.Client
      → (var : Text → Option Text) (policy : Result Policy PolicyError)
        (create_dirs : Result (Unit {0}) Text) (bind : Text → Result Bound Text)
      → GatewayConfig
      → W
      → Result (Router rmcp.Client crypto.SigningKey) NotStarted × W
  start c var policy create_dirs bind config w =
      elim (map_err tokens_refused (resolve var sha256 config.principals)) [
        | err e ↦ (err e, w)
        | ok tokens ↦
            let (built, w') = Start.new libs crypto codec tools c var policy create_dirs config w in
            (
              map_err engine_failed built >>= λ engine.
                  map_err (λ e. not_bound (listen_context config.server.listen e))
                    (bind config.server.listen)
                  >>= λ bound. map_err no_address bound >>= λ u.
                      ok (record { tokens = tokens; engine = engine }),
              w',
            )
      ]

  -- A tool call over HTTP: the bearer check in front of the handler.
  unfoldable pub handle :
      ServerLibrary
      → Router rmcp.Client crypto.SigningKey
      → (header : Option Text) (name : Text) (args : Option Members) → Moment
      → Fs
      → W
      → Response (Reply CallToolResult × Fs × W)
  handle lib router header name args moment fs w =
      require_bearer (principal_for sha256 router.tokens)
        (λ who.
          call_tool lib libs crypto codec tools router.engine (some who) name args moment fs w)
        header

  -- `during` is what happens while the server runs, and how it ends; `text` is the text of an error.
  unfoldable pub serve :
      Connector W rmcp.Client
      → (var : Text → Option Text) (policy : Result Policy PolicyError)
        (create_dirs : Result (Unit {0}) Text) (bind : Text → Result Bound Text)
        (during : Router rmcp.Client crypto.SigningKey → W → Ended × W) (text : NotStarted → Text)
      → GatewayConfig
      → W
      → Result (Unit {0}) Text × W
  unfolding start ended_with
  serve c var policy create_dirs bind during text config w =
      let (started, w') = start c var policy create_dirs bind config w in
      elim (map_err text started) [
        | err e ↦ (err e, w')
        | ok router ↦ let (ended, w'') = during router w' in (ended_with ended, w'')
      ]
