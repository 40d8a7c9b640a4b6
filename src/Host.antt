-- ===== src/Host.antt =====
-- src/host.rs: what happens at each tool call of a program.
pub mod Calls
pub mod Runs
pub mod Permits
use proveno_gateway.Prelude.{
  ℕ, Text, codes, ◌==◌, Bool, Option, none, some, List, [], ◌∷◌, ◌++◌, find, Result, ok, err, ◌>>=◌,
  map_err,
}
use proveno_gateway.Json.{Json, Serde}
use proveno_gateway.Core.{Core, HostInterface}
use proveno_gateway.Trace.{
  Provenance, unsigned, CallDecision, allowed, rejected_by_schema, denied_by_policy,
}
use proveno_gateway.Policy
use proveno_gateway.Policy.{Policy, Decision, check}
use proveno_gateway.Downstream.{
  ToolSchema, ToolResponse, Downstreams, Rmcp, ProvenanceSerde, qualified_name,
}
use proveno_gateway.Downstream
use proveno_gateway.Schema.{JsonSchema, check_args}
use proveno_gateway.Values.{table_to_json, json_to_table}

-- The libraries under the host, and the connections over the state `W` of the servers behind them.
pub record Libraries (W : Type 0) : Type 1 where
  pub core : Core
  pub serde : Serde
  pub from_slice : List ℕ → Result Json Text
  pub json_schema : JsonSchema
  pub provenance_serde : ProvenanceSerde
  pub rmcp : Rmcp W

-- What `new` is given, and keeps.
pub record Settings (Client : Type 0) : Type 0 where
  pub principal : Text
  pub downstreams : Downstreams Client
  pub allowed : List ToolSchema
  pub policy : Policy

-- What changes from call to call; `world` is the state of the servers.
pub record GatewayHost (W : Type 0) : Type 0 where
  pub log : List (CallDecision × Provenance)
  pub attestation : Option (List ℕ)
  pub world : W

pub not_serialized : Text → Text → Text
not_serialized name e = name ++ codes ": " ++ e

pub tool_not_allowed : Text → Text → Text
tool_not_allowed name principal = codes "tool " ++ name ++ codes " is not allowed for " ++ principal

pub schema_message : Text → Text
schema_message reason = codes "schema: " ++ reason

pub policy_message : Text → Text
policy_message reason = codes "policy: " ++ reason

pub downstream_message : Text → Text
downstream_message e = codes "downstream: " ++ e

pub bad_response : Text → Text → Text
bad_response name e = codes "downstream: " ++ name ++ codes ": " ++ e

pub unrecordable : Text → Text → Text
unrecordable name e = codes "downstream: " ++ name ++ codes ": response cannot be recorded: " ++ e

-- `Some(attestation).filter(|a| !a.is_empty())`
abbrev pub if_not_empty : List ℕ → Option (List ℕ)
if_not_empty [] = none
if_not_empty (b ∷ bs) = some (b ∷ bs)

module _ {W : Type 0} where
  -- `GatewayHost::new`
  unfoldable pub new : W → GatewayHost W
  new w = record { log = []; attestation = none; world = w }

  unfoldable pub take_attestation : GatewayHost W → Option (List ℕ) × GatewayHost W
  take_attestation h = (h.attestation, record h { attestation = none })

  abbrev pub push : GatewayHost W → CallDecision → Provenance → GatewayHost W
  push h decision provenance = record h { log = h.log ++ (decision, provenance) ∷ [] }

  unfoldable pub refuse :
      {T : Type 0} → GatewayHost W → CallDecision → Text → Result T Text × GatewayHost W
  refuse h decision message = (err message, push h decision unsigned)

module _ {W : Type 0} (libs : Libraries W) where
  open libs use {core, rmcp}

  unfoldable pub accept :
      Text → Result ToolResponse Text → Result (core.Table × Provenance × List ℕ) Text
  accept name response = do
    r ← map_err downstream_message response
    table ← map_err (bad_response name) (json_to_table core libs.serde r.value)
    bytes ← map_err (unrecordable name) (core.canonical_serialize_table table)
    ok (table, r.provenance, r.attestation)

  -- the last `match` of `call_tool`
  unfoldable pub record_response :
      GatewayHost W
      → Result (core.Table × Provenance × List ℕ) Text
      → Result core.Table Text × GatewayHost W
  record_response h (ok (table, provenance, attestation)) =
      (ok table, record (push h allowed provenance) { attestation = if_not_empty attestation })
  record_response h (err e) = (err e, push h allowed unsigned)

  -- `block_on(self.downstreams.call(..))`, and what is made of the response
  unfoldable pub dispatch :
      Settings rmcp.Client → GatewayHost W → Text → Json → Result core.Table Text × GatewayHost W
  unfolding record_response
  dispatch settings h name args =
      let (response, w) =
        Downstream.call libs.serde libs.provenance_serde rmcp settings.downstreams name args
          h.world in
      record_response (record h { world = w }) (accept name response)

  unfoldable pub after_schema :
      Settings rmcp.Client
      → GatewayHost W
      → Text
      → Json
      → Decision
      → Result core.Table Text × GatewayHost W
  unfolding refuse
  after_schema settings h name args (Policy.deny reason) =
      refuse h (denied_by_policy reason) (policy_message reason)
  after_schema settings h name args Policy.allow = dispatch settings h name args

  unfoldable pub with_tool :
      Settings rmcp.Client
      → GatewayHost W
      → Text
      → Json
      → ToolSchema
      → Result core.Table Text × GatewayHost W
  unfolding refuse after_schema
  with_tool settings h name args tool = elim (check_args libs.json_schema tool args) [
    | err reason ↦ refuse h (rejected_by_schema reason) (schema_message reason)
    | ok _ ↦
        after_schema settings h name args
          (check libs.serde settings.policy settings.principal name args)
  ]

  abbrev pub named : Text → ToolSchema → Bool
  named name t = qualified_name t == name

  unfoldable pub with_args :
      Settings rmcp.Client → GatewayHost W → Text → Json → Result core.Table Text × GatewayHost W
  unfolding refuse with_tool
  with_args settings h name args = elim (find (named name) settings.allowed) [
    | none ↦
        refuse h (denied_by_policy (tool_not_allowed name settings.principal))
          (policy_message (tool_not_allowed name settings.principal))
    | some tool ↦ with_tool settings h name args tool
  ]

  unfoldable pub call_tool :
      Settings rmcp.Client
      → GatewayHost W
      → Text
      → core.Table
      → Result core.Table Text × GatewayHost W
  unfolding refuse with_args
  call_tool settings h name args =
      let h' = record h { attestation = none } in
      elim (table_to_json core libs.serde libs.from_slice args) [
        | err e ↦
            refuse h' (rejected_by_schema (not_serialized name e))
              (schema_message (not_serialized name e))
        | ok json ↦ with_args settings h' name json
      ]

  -- `impl HostInterface for GatewayHost`
  unfoldable pub interface : Settings rmcp.Client → HostInterface (GatewayHost W) core.Table
  interface settings = record {
    call_tool = call_tool settings;
    take_attestation = take_attestation;
  }
