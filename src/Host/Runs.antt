-- ===== src/Host/Runs.antt =====
-- A whole run: the log that the host keeps and the transcript that the VM keeps are about the same
-- calls, in the same order.
use proveno_gateway.Prelude.{
  List, [], ◌∷◌, ◌++◌, length, ◌≡◌, refl, sym, ap, ◌∙◌, ◌⊎◌, inl, inr, arith,
}
use mathlib.Core.List.{append-nil, append_assoc}
use proveno_gateway.Core
use proveno_gateway.Core.{Recordable, Calls, ToolCallRecord, ok_call, error_call, blob}
use proveno_gateway.Trace.{Provenance, unsigned, CallDecision, allowed}
use proveno_gateway.Host.{Libraries, Settings, GatewayHost, take_attestation, interface, new}
use proveno_gateway.Host.Calls.{call_tool_ends}

-- A call that the VM recorded as returned was allowed; one that it recorded as failed is unsigned
-- and has no attestation.
abbrev pub Agrees : ToolCallRecord → CallDecision × Provenance → Type 0
Agrees r e =
    (r.status ≡ ok_call) × (e.0 ≡ allowed)
    ⊎ (r.status ≡ error_call) × (e.1 ≡ unsigned) × (r.attestation ≡ [])

abbrev pub Zips : List ToolCallRecord → List (CallDecision × Provenance) → Type 0
Zips [] [] = Unit
Zips (r ∷ rs) (e ∷ es) = Agrees r e × Zips rs es
Zips _ _ = ⊥

pub length-Zips :
    (rs : List ToolCallRecord) (es : List (CallDecision × Provenance))
    → Zips rs es
    → length rs ≡ length es
length-Zips [] [] z = refl
length-Zips (r ∷ rs) (e ∷ es) z = omega (arith, length-Zips rs es z.1)
length-Zips [] (e ∷ es) z = absurd z
length-Zips (r ∷ rs) [] z = absurd z

module _ {W : Type 0} (libs : Libraries W) (settings : Settings libs.rmcp.Client) where
  abbrev Run : GatewayHost W → List ToolCallRecord → GatewayHost W → Type 0
  Run = Core.Calls libs.core.canonical_serialize_table (interface libs settings)

  -- The log grows by entries that match the calls recorded, one for one.
  abbrev Logged : GatewayHost W → List ToolCallRecord → GatewayHost W → Type 0
  Logged s rs u = (es : List (CallDecision × Provenance)) × (u.log ≡ s.log ++ es) × Zips rs es

  one_more :
      (s t u : GatewayHost W) (r : ToolCallRecord) (rs : List ToolCallRecord)
      (e : CallDecision × Provenance)
      → t.log ≡ s.log ++ e ∷ []
      → Agrees r e
      → Logged t rs u
      → Logged s (r ∷ rs) u
  one_more s t u r rs e h agrees (es, grown, zips) =
      (e ∷ es, grown ∙ ap (λ l. l ++ es) h ∙ append_assoc s.log (e ∷ []) es, (agrees, zips))

  run-Logged : {s u : GatewayHost W} {rs : List ToolCallRecord} → Run s rs u → Logged s rs u
  unfolding interface take_attestation
  run-Logged {s} Calls.done = ([], sym (append-nil s.log), tt)
  run-Logged {s}
        (Calls.returned {u} {rs} r args answer s1 s2 a c called canon taken status resp att rest) =
      elim (call_tool_ends libs settings s r.tool_name args) [
        | inl done ↦
            one_more s s2 u r rs (allowed, done.provenance) (ground arith) (inl (status, refl))
              (run-Logged rest)
        | inr raised ↦ absurd (ground arith)
      ]
  run-Logged {s} (Calls.failed {u} {rs} r args message s1 called status said att rest) =
      elim (call_tool_ends libs settings s r.tool_name args) [
        | inl done ↦ absurd (ground arith)
        | inr raised ↦
            one_more s s1 u r rs (raised.decision, unsigned) (ground arith)
              (inr (status, refl, att)) (run-Logged rest)
      ]
  run-Logged {s} (Calls.unrecorded name args answer s1 e called canon rest) =
      elim (call_tool_ends libs settings s name args) [
        | inl done ↦ absurd (ground arith)
        | inr raised ↦ absurd (ground arith)
      ]

  -- Whatever the VM calls, the log of a fresh host and the transcript are as long as each other, and
  -- agree call for call: a recorded return was allowed, and a recorded failure is unsigned.
  pub log-Zips :
      (w : W) (rs : List ToolCallRecord) (u : GatewayHost W)
      → Core.Calls libs.core.canonical_serialize_table (interface libs settings) (new w) rs u
      → Zips rs u.log
  unfolding new
  log-Zips w rs u run = let (es, grown, zips) = run-Logged run in rw (grown) zips

  -- The host answers only with tables that the VM can record.
  pub interface-Recordable : Recordable libs.core (interface libs settings)
  unfolding interface
  interface-Recordable s s1 name args answer called =
      elim (call_tool_ends libs settings s name args) [
        | inl done ↦ (done.canonical, ground (arith, done.recordable, done.outcome))
        | inr raised ↦ absurd (ground (arith, raised.outcome))
      ]
