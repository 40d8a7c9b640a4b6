-- ===== src/Host/Permits.antt =====
-- What a whole run can do to the servers: only what the checks let through.
use proveno_gateway.Prelude.{
  Text, List, find, none, Result, some, ok, Result-cases, ◌≡◌, ap, subst, ◌∙◌, inl, inr, arith,
}
use proveno_gateway.Json.{Json}
use proveno_gateway.Core
use proveno_gateway.Core.{Calls, ToolCallRecord}
use proveno_gateway.Policy.Permitted.{Permitted}
use proveno_gateway.Downstream
use proveno_gateway.Downstream.{ToolSchema}
use proveno_gateway.Schema.{check_args}
use proveno_gateway.Host.{
  Libraries, Settings, GatewayHost, named, dispatch, accept, call_tool, take_attestation, interface,
}
use proveno_gateway.Host.Calls.{call_tool_cases}

module _ {W : Type 0} (libs : Libraries W) (settings : Settings libs.rmcp.Client) where
  abbrev pub after_call : Text → Json → W → W
  after_call name json w =
      (Downstream.call libs.serde libs.provenance_serde libs.rmcp settings.downstreams name json
        w).1

  -- The servers went from one state to the other by calls, each of a tool that is listed for the
  -- principal, with arguments that fit its schema and that the policy permits the principal.
  pub data Permits : W → W → Type 0 where
    idle : {w : W} → Permits w w
    called :
        {w u : W} (name : Text) (json : Json) (tool : ToolSchema)
        → find (named libs name) settings.allowed ≡ some tool
        → check_args libs.json_schema tool json ≡ ok tt
        → Permitted settings.policy settings.principal name json
        → Permits (after_call name json w) u
        → Permits w u

  dispatch-world :
      (h : GatewayHost W) (name : Text) (json : Json)
      → (dispatch libs settings h name json).1.world ≡ after_call name json h.world
  unfolding dispatch
  dispatch-world h name json =
      elim (Result-cases (
        accept libs name
          (Downstream.call libs.serde libs.provenance_serde libs.rmcp settings.downstreams name json
            h.world).0)) [ inl ((t, p, a), e) ↦ ground arith | inr (m, e) ↦ ground arith ]

  call_tool-Permits :
      (h : GatewayHost W) (name : Text) (args : libs.core.Table) (u : W)
      → Permits (call_tool libs settings h name args).1.world u
      → Permits h.world u
  call_tool-Permits h name args u later = elim (call_tool_cases libs settings h name args) [
    | inl r ↦
        subst (λ (w : W). Permits w u)
          (ap (λ (x : Result libs.core.Table Text × GatewayHost W). x.1.world) r.outcome) later
    | inr (d, e) ↦ Permits.called name d.json d.tool d.listed d.fits d.permitted (
        subst (λ (w : W). Permits w u)
          (ap (λ (x : Result libs.core.Table Text × GatewayHost W). x.1.world) e
            ∙ dispatch-world (record h { attestation = none }) name d.json)
          later)
  ]

  -- Whatever a run calls, recorded or not, the servers change only by calls that passed every check.
  pub run-Permits :
      {s u : GatewayHost W} {rs : List ToolCallRecord}
      → Core.Calls libs.core.canonical_serialize_table (interface libs settings) s rs u
      → Permits s.world u.world
  unfolding interface take_attestation
  run-Permits Calls.done = Permits.idle
  run-Permits {s}
        (Calls.returned {u} {rs} r args answer s1 s2 a c went canon taken status resp att rest) =
      call_tool-Permits s r.tool_name args u.world
        (subst (λ (w : W). Permits w u.world) (ground arith) (run-Permits rest))
  run-Permits {s} (Calls.failed {u} {rs} r args message s1 went status said att rest) =
      call_tool-Permits s r.tool_name args u.world
        (subst (λ (w : W). Permits w u.world) (ground arith) (run-Permits rest))
  run-Permits {s} (Calls.unrecorded {u} name args answer s1 e went canon rest) =
      call_tool-Permits s name args u.world
        (subst (λ (w : W). Permits w u.world) (ground arith) (run-Permits rest))
