-- ===== src/Downstream/Connect.antt =====
-- src/downstream.rs, `open` and `Downstreams::connect`: starting the downstream servers.
use proveno_gateway.Prelude.{
  Text, codes, ◌==◌, eq_iff, split_whitespace, Option, none, some, Bool-cases, sym, List, [], ◌∷◌,
  ◌++◌, Result, ok, err, ◌>>=◌, map_err, ◌≡◌, ◌⊎◌, inl, inr, arith,
}
use proveno_gateway.Prelude.Map.{lookup, insert, lookup-insert}
use proveno_gateway.Prelude.Sort.{sort_by_key}
use proveno_gateway.Config.{
  ConfigError, invalid, Transport, stdio, http, DownstreamConfig, env_name, resolve,
}
use proveno_gateway.Downstream.{Tool, Downstreams, qualified_name, push_tools}

-- What `open` and `connect` use of rmcp and of the system, over the state `W` of the servers.
pub record Connector (W Client : Type 0) : Type 1 where
  pub Channel : Type 0
  -- a child process with exactly this environment
  pub child :
      (program : Text) (args : List Text) (env : List (Text × Text)) → W → Result Channel Text × W
  pub http_channel : (url : Text) (token : Option Text) → Channel
  pub serve : Channel → W → Result Client Text × W
  pub list_all_tools : Client → W → Result (List Tool) Text × W

pub connect_error : Text → Text → Text → Text
connect_error name what e = codes "downstream `" ++ name ++ codes "`: " ++ what ++ codes ": " ++ e

abbrev error_text : ConfigError → Text
error_text (invalid e) = e

unfoldable pub credential_of :
    (var : Text → Option Text) → DownstreamConfig → Result (Option (Text × Text)) Text
credential_of var config = elim config.credential [
  | none ↦ ok none
  | some secret ↦ elim (resolve var secret) [
    | err e ↦ err (connect_error config.name (codes "credential") (error_text e))
    | ok value ↦ ok (some (env_name secret, value))
  ]
]

-- `cmd.env(name, value)`, for a variable that is set
abbrev set_var : Text → Option Text → List (Text × Text) → List (Text × Text)
set_var name none env = env
set_var name (some value) env = insert name value env

abbrev set_credential : Option (Text × Text) → List (Text × Text) → List (Text × Text)
set_credential none env = env
set_credential (some (name, value)) env = insert name value env

-- The environment of a child process, after `env_clear`.
unfoldable pub child_env : (Text → Option Text) → Option (Text × Text) → List (Text × Text)
child_env var credential =
    set_credential credential
      (set_var (codes "HOME") (var (codes "HOME")) (set_var (codes "PATH") (var (codes "PATH")) []))

abbrev token_of : Option (Text × Text) → Option Text
token_of none = none
token_of (some (name, token)) = some token

module _ {W Client : Type 0} (c : Connector W Client) (var : Text → Option Text) where
  abbrev initialize : Text → Result c.Channel Text → W → Result Client Text × W
  initialize name (err e) w = (err (connect_error name (codes "spawn") e), w)
  initialize name (ok channel) w =
      let (served, w') = c.serve channel w in
      (map_err (connect_error name (codes "initialize")) served, w')

  abbrev spawn : Text → List Text → Option (Text × Text) → W → Result Client Text × W
  spawn name [] credential w =
      (err (connect_error name (codes "spawn") (codes "command is empty")), w)
  spawn name (program ∷ parts) credential w =
      let (channel, w') = c.child program parts (child_env var credential) w in
      initialize name channel w'

  abbrev open_transport : Text → Transport → Option (Text × Text) → W → Result Client Text × W
  open_transport name (stdio command) credential w =
      spawn name (split_whitespace command) credential w
  open_transport name (http url) credential w =
      initialize name (ok (c.http_channel url (token_of credential))) w

  unfoldable pub open_client : DownstreamConfig → W → Result Client Text × W
  unfolding credential_of child_env
  open_client config w = elim (credential_of var config) [
    | err e ↦ (err e, w)
    | ok credential ↦ open_transport config.name config.transport credential w
  ]

  unfoldable pub connect_all :
      Downstreams Client → List DownstreamConfig → W → Result (Downstreams Client) Text × W
  unfolding open_client push_tools
  connect_all d [] w = (ok d, w)
  connect_all d (config ∷ configs) w =
      let (opened, w1) = open_client config w in
      elim opened [
        | err e ↦ (err e, w1)
        | ok client ↦
            let (listed, w2) = c.list_all_tools client w1 in
            elim (map_err (connect_error config.name (codes "tools/list")) listed
              >>= push_tools config.name d.tools) [
                | err e ↦ (err e, w2)
                | ok tools ↦
                    connect_all
                      (record { clients = insert config.name client d.clients; tools = tools })
                      configs w2
              ]
      ]

  -- `tools.sort_by_key(ToolSchema::qualified_name)`
  abbrev sorted_tools : Result (Downstreams Client) Text → Result (Downstreams Client) Text
  sorted_tools (err e) = err e
  sorted_tools (ok d) = ok (record d { tools = sort_by_key qualified_name d.tools })

  unfoldable pub connect : List DownstreamConfig → W → Result (Downstreams Client) Text × W
  unfolding connect_all
  connect configs w =
      let (connected, w') = connect_all (record { clients = []; tools = [] }) configs w in
      (sorted_tools connected, w')

lookup-set_var :
    (name key value : Text) (v : Option Text) (env : List (Text × Text))
    → lookup key (set_var name v env) ≡ some value
    → ((key ≡ name) × (v ≡ some value)) ⊎ (lookup key env ≡ some value)
lookup-set_var name key value none env h = inr h
lookup-set_var name key value (some v) env h = elim (Bool-cases (name == key)) [
  | inl same ↦ inl (sym ((eq_iff name key).0 same), ground (arith, lookup-insert name key v env))
  | inr other ↦ inr (ground (arith, lookup-insert name key v env))
]

lookup-set_credential :
    (key value : Text) (credential : Option (Text × Text)) (env : List (Text × Text))
    → lookup key (set_credential credential env) ≡ some value
    → (credential ≡ some (key, value)) ⊎ (lookup key env ≡ some value)
lookup-set_credential key value none env h = inr h
lookup-set_credential key value (some (name, v)) env h = elim (Bool-cases (name == key)) [
  | inl same ↦
      let e = (eq_iff name key).0 same in
      let f = lookup-set_var name key value (some v) env h in
      elim f [ inl (a, b) ↦ inl (cc) | inr there ↦ inr there ]
  | inr other ↦ inr (ground (arith, lookup-insert name key v env))
]

nothing_there : (key value : Text) → lookup {V = Text} key [] ≡ some value → ⊥
unfolding lookup
nothing_there key value h = cc

-- Whatever a child process finds in its environment is the gateway's PATH, its HOME, or the one
-- credential that was configured for that server.
pub child_env_lem :
    (var : Text → Option Text) (credential : Option (Text × Text)) (name value : Text)
    → lookup name (child_env var credential) ≡ some value
    → ((name ≡ codes "PATH") × (var (codes "PATH") ≡ some value))
      ⊎ ((name ≡ codes "HOME") × (var (codes "HOME") ≡ some value))
      ⊎ (credential ≡ some (name, value))
unfolding child_env
child_env_lem var credential name value h =
    let path = set_var (codes "PATH") (var (codes "PATH")) [] in
    let home = set_var (codes "HOME") (var (codes "HOME")) path in
    elim (lookup-set_credential name value credential home h) [
      | inl given ↦ inr (inr given)
      | inr outer ↦
          elim (lookup-set_var (codes "HOME") name value (var (codes "HOME")) path outer) [
            | inl of_home ↦ inr (inl of_home)
            | inr inner ↦
                elim (lookup-set_var (codes "PATH") name value (var (codes "PATH")) [] inner) [
                  | inl of_path ↦ inl of_path
                  | inr nothing ↦ absurd (nothing_there name value nothing)
                ]
          ]
    ]
