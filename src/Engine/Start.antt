-- ===== src/Engine/Start.antt =====
-- src/engine.rs, `Engine::new`: everything that a run needs is there before the first request.
use proveno_gateway.Prelude.{
  Text, Option, List, [], ◌∷◌, All, Result, ok, err, ◌>>=◌, map_err, >>=-eq-ok, map_err-eq-ok,
  ok-inj, subst, ◌≡◌,
}
use proveno_gateway.Trace.{Crypto, TraceError, signing_key_from_hex}
use proveno_gateway.Policy.{Policy, PolicyError}
use proveno_gateway.Downstream.{ToolSchema, Downstreams}
use proveno_gateway.Downstream.Connect.{Connector, connect}
use proveno_gateway.Config.{ConfigError, GatewayConfig, PrincipalConfig, resolve}
use proveno_gateway.Config
use proveno_gateway.Store.{Codec, open_store}
use proveno_gateway.Host.{Libraries}
use proveno_gateway.Engine.{Tools, Engine, allowed_schemas}
use proveno_gateway.Engine.Names.{check_lua_names, Declarable, check_lua_names-Declarable}

pub data StartError : Type 0 where
  policy_failed : PolicyError → StartError
  downstream_failed : Text → StartError
  store_failed : Text → StartError
  key_unresolved : ConfigError → StartError
  bad_key : TraceError → StartError
  token_unresolved : Text → ConfigError → StartError
  bad_name : (principal message : Text) → StartError

-- every principal's token is set
unfoldable pub check_tokens :
    (var : Text → Option Text) → List (Text × PrincipalConfig) → Result (Unit {0}) StartError
check_tokens var [] = ok tt
check_tokens var ((name, p) ∷ rest) =
    map_err (token_unresolved name) (Config.resolve var p.token) >>= λ t. check_tokens var rest

unfoldable pub check_tools : Text → List ToolSchema → Result (Unit {0}) StartError
check_tools principal [] = ok tt
check_tools principal (t ∷ ts) =
    map_err (bad_name principal) (check_lua_names t) >>= λ u. check_tools principal ts

module _ {W : Type 0} (libs : Libraries W) (crypto : Crypto) (codec : Codec) (tools : Tools) where
  open libs use {rmcp}

  unfoldable pub check_principals :
      Engine rmcp.Client crypto.SigningKey
      → List (Text × PrincipalConfig)
      → Result (Unit {0}) StartError
  unfolding check_tools
  check_principals engine [] = ok tt
  check_principals engine ((name, p) ∷ rest) =
      check_tools name (allowed_schemas libs crypto codec tools engine name) >>= λ u.
      check_principals engine rest

  -- what follows once the downstream servers are connected
  unfoldable pub start_engine :
      (var : Text → Option Text) (create_dirs : Result (Unit {0}) Text)
      → GatewayConfig
      → Policy
      → Downstreams rmcp.Client
      → Result (Engine rmcp.Client crypto.SigningKey) StartError
  unfolding check_tokens check_principals
  start_engine var create_dirs config policy downstreams = do
    u ← map_err store_failed create_dirs
    hex ← map_err key_unresolved (resolve var config.server.signing_key)
    key ← map_err bad_key (signing_key_from_hex crypto hex)
    v ← check_tokens var config.principals
    let engine : Engine rmcp.Client crypto.SigningKey = record {
      vm = config.vm;
      policy = policy;
      downstreams = downstreams;
      store = open_store config.store.dir;
      signing_key = key;
    }
    x ← check_principals engine config.principals
    ok engine

  -- `policy` is what loading the policy file came to, `create_dirs` the making of the store.
  unfoldable pub new :
      Connector W rmcp.Client
      → (var : Text → Option Text) (policy : Result Policy PolicyError)
        (create_dirs : Result (Unit {0}) Text)
      → GatewayConfig
      → W
      → Result (Engine rmcp.Client crypto.SigningKey) StartError × W
  unfolding start_engine
  new c var policy create_dirs config w = elim (map_err policy_failed policy) [
    | err e ↦ (err e, w)
    | ok p ↦
        let (connected, w') = connect c var config.downstream w in
        (map_err downstream_failed connected >>= start_engine var create_dirs config p, w')
  ]

  check_tools-All :
      (principal : Text) (ts : List ToolSchema)
      → check_tools principal ts ≡ ok tt
      → All Declarable ts
  unfolding check_tools
  check_tools-All principal [] h = tt
  check_tools-All principal (t ∷ ts) h =
      let (u, e, f) = >>=-eq-ok (map_err (bad_name principal) (check_lua_names t)) _ h in
      (
        check_lua_names-Declarable t (map_err-eq-ok (bad_name principal) (check_lua_names t) e),
        check_tools-All principal ts f,
      )

  -- The names of every tool that this principal is shown were accepted.
  abbrev pub ShownDeclarable :
      Engine rmcp.Client crypto.SigningKey → Text × PrincipalConfig → Type 0
  ShownDeclarable engine p = All Declarable (allowed_schemas libs crypto codec tools engine p.0)

  check_principals-All :
      (engine : Engine rmcp.Client crypto.SigningKey) (ps : List (Text × PrincipalConfig))
      → check_principals engine ps ≡ ok tt
      → All (ShownDeclarable engine) ps
  unfolding check_principals
  check_principals-All engine [] h = tt
  check_principals-All engine ((name, p) ∷ rest) h =
      let (u, e, f) =
        >>=-eq-ok (check_tools name (allowed_schemas libs crypto codec tools engine name)) _ h in
      (check_tools-All name _ e, check_principals-All engine rest f)

  start_engine-Declarable :
      (var : Text → Option Text) (create_dirs : Result (Unit {0}) Text) (config : GatewayConfig)
      (policy : Policy) (d : Downstreams rmcp.Client)
      (engine : Engine rmcp.Client crypto.SigningKey)
      → start_engine var create_dirs config policy d ≡ ok engine
      → All (ShownDeclarable engine) config.principals
  unfolding start_engine
  start_engine-Declarable var create_dirs config policy d engine h =
      let (u, e1, h1) = >>=-eq-ok (map_err store_failed create_dirs) _ h in
      let (hex, e2, h2) =
        >>=-eq-ok (map_err key_unresolved (resolve var config.server.signing_key)) _ h1 in
      let (key, e3, h3) = >>=-eq-ok (map_err bad_key (signing_key_from_hex crypto hex)) _ h2 in
      let (v, e4, h4) = >>=-eq-ok (check_tokens var config.principals) _ h3 in
      let built : Engine rmcp.Client crypto.SigningKey = record {
        vm = config.vm;
        policy = policy;
        downstreams = d;
        store = open_store config.store.dir;
        signing_key = key;
      } in
      let (x, e5, h5) = >>=-eq-ok (check_principals built config.principals) _ h4 in
      subst
        (λ (m : Engine rmcp.Client crypto.SigningKey). All (ShownDeclarable m) config.principals)
        (ok-inj {E = StartError} h5) (check_principals-All built config.principals e5)

  -- In an engine that starts, every tool that is shown to a configured principal has a server and a
  -- name that are identifiers of Lua and no keywords, and its server is none of `DIALECT_NAMES`.
  pub new-Declarable :
      (c : Connector W rmcp.Client) (var : Text → Option Text) (policy : Result Policy PolicyError)
      (create_dirs : Result (Unit {0}) Text) (config : GatewayConfig) (w : W)
      (engine : Engine rmcp.Client crypto.SigningKey)
      → (new c var policy create_dirs config w).0 ≡ ok engine
      → All (ShownDeclarable engine) config.principals
  unfolding new
  new-Declarable c var (err e) create_dirs config w engine h = cc
  new-Declarable c var (ok p) create_dirs config w engine h =
      let (d, e, f) =
        >>=-eq-ok (map_err downstream_failed (connect c var config.downstream w).0) _ h in
      start_engine-Declarable var create_dirs config p d engine f
