-- ===== src/Host/Calls.antt =====
-- What one call of `call_tool` does, and what a whole run leaves in the log.
use proveno_gateway.Prelude.{
  ℕ, ◌+◌, Text, none, some, Option-cases, List, [], ◌∷◌, ◌++◌, length, length-append, find, Result,
  Result-cases, >>=-eq-ok, map_err, ok, err, ok-inj, some-inj, ◌≡◌, ◌≢◌, refl, sym, subst, ◌∙◌, ◌⊎◌,
  inl, inr, arith,
}
use proveno_gateway.Json.{Json}
use proveno_gateway.Trace.{
  Provenance, unsigned, CallDecision, allowed, rejected_by_schema, denied_by_policy,
}
use proveno_gateway.Policy.{Decision, check}
use proveno_gateway.Policy
use proveno_gateway.Policy.Permitted.{Permitted, check-eq-allow_iff}
use proveno_gateway.Downstream
use proveno_gateway.Downstream.{ToolSchema, ToolResponse}
use proveno_gateway.Schema.{check_args}
use proveno_gateway.Values.{table_to_json, json_to_table}
use proveno_gateway.Host.{
  Libraries, Settings, GatewayHost, named, dispatch, call_tool, accept, policy_message,
  schema_message, downstream_message, bad_response, unrecordable, if_not_empty, not_serialized,
  tool_not_allowed,
}

Decision-cases : (d : Decision) → (d ≡ Policy.allow) ⊎ ((r : Text) × (d ≡ Policy.deny r))
Decision-cases Policy.allow = inl refl
Decision-cases (Policy.deny r) = inr (r, refl)

module _ {W : Type 0} (libs : Libraries W) (settings : Settings libs.rmcp.Client) where
  -- The call went through every check: its arguments are JSON that fits the schema of the tool of
  -- that name among those shown to the principal, and the policy permits it.
  pub record Dispatched (name : Text) (args : libs.core.Table) : Type 0 where
    pub json : Json
    pub serialized : table_to_json libs.core libs.serde libs.from_slice args ≡ ok json
    pub tool : ToolSchema
    pub listed : find (named libs name) settings.allowed ≡ some tool
    pub fits : check_args libs.json_schema tool json ≡ ok tt
    pub permitted : Permitted settings.policy settings.principal name json

  -- The call failed a check, so that it cannot be dispatched: it raises an error, the servers are as
  -- before, and the log has the refusal.
  pub record Refused (h : GatewayHost W) (name : Text) (args : libs.core.Table) : Type 0 where
    pub why : ¬ (Dispatched name args)
    pub decision : CallDecision
    pub message : Text
    pub refusal : decision ≢ allowed
    pub outcome :
        call_tool libs settings h name args
        ≡ (err message, record h { attestation = none; log = h.log ++ (decision, unsigned) ∷ [] })

  denied-undispatched :
      (name : Text) (args : libs.core.Table) (json : Json) (reason : Text)
      → table_to_json libs.core libs.serde libs.from_slice args ≡ ok json
      → check libs.serde settings.policy settings.principal name json ≡ Policy.deny reason
      → ¬ (Dispatched name args)
  denied-undispatched name args json reason e p d =
      let same = ok-inj {E = Text} (sym d.serialized ∙ e) in
      let permits = subst (Permitted settings.policy settings.principal name) same d.permitted in
      let q =
        (check-eq-allow_iff libs.serde settings.policy settings.principal name json).1 permits in
      cc

  misfit-undispatched :
      (name : Text) (args : libs.core.Table) (json : Json) (tool : ToolSchema) (reason : Text)
      → table_to_json libs.core libs.serde libs.from_slice args ≡ ok json
      → find (named libs name) settings.allowed ≡ some tool
      → check_args libs.json_schema tool json ≡ err reason
      → ¬ (Dispatched name args)
  misfit-undispatched name args json tool reason e f r d =
      let same = ok-inj {E = Text} (sym d.serialized ∙ e) in
      let shown = some-inj (sym d.listed ∙ f) in let fits = d.fits in cc

  after_check :
      (h : GatewayHost W) (name : Text) (args : libs.core.Table) (json : Json) (tool : ToolSchema)
      → table_to_json libs.core libs.serde libs.from_slice args ≡ ok json
      → find (named libs name) settings.allowed ≡ some tool
      → check_args libs.json_schema tool json ≡ ok tt
      → Refused h name args
        ⊎ (d : Dispatched name args) × (call_tool libs settings h name args
            ≡ dispatch libs settings (record h { attestation = none }) name d.json)
  unfolding call_tool
  after_check h name args json tool e f g =
      elim (Decision-cases (check libs.serde settings.policy settings.principal name json)) [
        | inl p ↦ inr (
          record {
            json = json;
            serialized = e;
            tool = tool;
            listed = f;
            fits = g;
            permitted =
                (check-eq-allow_iff libs.serde settings.policy settings.principal name json).0 p;
          },
          ground arith,
        )
        | inr (reason, p) ↦ inl (record {
          why = λ d. denied-undispatched name args json reason e p d;
          decision = denied_by_policy reason;
          message = policy_message reason;
          refusal = λ q. cc;
          outcome = ground arith;
        })
      ]

  -- A call either fails a check, raises an error, leaves the servers as they were and logs the
  -- refusal; or it has passed every check, the policy among them, and is dispatched. A call that can
  -- pass every check is not refused.
  pub call_tool_cases :
      (h : GatewayHost W) (name : Text) (args : libs.core.Table)
      → Refused h name args
        ⊎ (d : Dispatched name args) × (call_tool libs settings h name args
            ≡ dispatch libs settings (record h { attestation = none }) name d.json)
  unfolding call_tool
  call_tool_cases h name args =
      elim (Result-cases (table_to_json libs.core libs.serde libs.from_slice args)) [
        | inr (e, p) ↦ inl (record {
          why = λ d. (let s = d.serialized in cc);
          decision = rejected_by_schema (not_serialized name e);
          message = schema_message (not_serialized name e);
          refusal = λ q. cc;
          outcome = ground arith;
        })
        | inl (json, p) ↦ elim (Option-cases (find (named libs name) settings.allowed)) [
          | inl q ↦ inl (record {
            why = λ d. (let s = d.listed in cc);
            decision = denied_by_policy (tool_not_allowed name settings.principal);
            message = policy_message (tool_not_allowed name settings.principal);
            refusal = λ q. cc;
            outcome = ground arith;
          })
          | inr (tool, q) ↦ elim (Result-cases (check_args libs.json_schema tool json)) [
            | inr (reason, r) ↦ inl (record {
              why = misfit-undispatched name args json tool reason p q r;
              decision = rejected_by_schema reason;
              message = schema_message reason;
              refusal = λ q. cc;
              outcome = ground arith;
            })
            | inl (u, r) ↦ after_check h name args json tool p q r
          ]
        ]
      ]

  -- A response that is accepted was made into a table that can be recorded.
  accept-recordable :
      (name : Text) (response : Result ToolResponse Text) (t : libs.core.Table) (p : Provenance)
      (a : List ℕ)
      → accept libs name response ≡ ok (t, p, a)
      → (canonical : List ℕ) × (libs.core.canonical_serialize_table t ≡ ok canonical)
  unfolding accept
  accept-recordable name response t p a h =
      let (r, e1, h1) = >>=-eq-ok (map_err downstream_message response) _ h in
      let (table, e2, h2) =
        >>=-eq-ok (map_err (bad_response name) (json_to_table libs.core libs.serde r.value)) _ h1 in
      let (bytes, e3, h3) =
        >>=-eq-ok (map_err (unrecordable name) (libs.core.canonical_serialize_table table)) _ h2 in
      (
        bytes,
        elim (Result-cases (libs.core.canonical_serialize_table table)) [
          | inl (b, q) ↦ ground arith
          | inr (b, q) ↦ ground arith
        ],
      )

  -- What a dispatched call comes to.
  pub record Answered (h : GatewayHost W) (r : Result libs.core.Table Text × GatewayHost W)
      : Type 0 where
    pub table : libs.core.Table
    pub provenance : Provenance
    pub attestation : List ℕ
    pub world : W
    pub canonical : List ℕ
    pub recordable : libs.core.canonical_serialize_table table ≡ ok canonical
    pub outcome : r ≡ (
      ok table,
      record {
        log = h.log ++ (allowed, provenance) ∷ [];
        attestation = if_not_empty attestation;
        world = world;
      },
    )

  pub record Failed (h : GatewayHost W) (r : Result libs.core.Table Text × GatewayHost W)
      : Type 0 where
    pub message : Text
    pub world : W
    pub outcome : r ≡ (
      err message,
      record {
        log = h.log ++ (allowed, unsigned) ∷ [];
        attestation = h.attestation;
        world = world;
      },
    )

  dispatch_cases :
      (h : GatewayHost W) (name : Text) (json : Json)
      → Answered h (dispatch libs settings h name json)
        ⊎ Failed h (dispatch libs settings h name json)
  unfolding dispatch
  dispatch_cases h name json =
      let call =
        Downstream.call libs.serde libs.provenance_serde libs.rmcp settings.downstreams name json
          h.world in
      elim (Result-cases (accept libs name call.0)) [
        | inl ((t, p, a), e) ↦
            let (canonical, f) = accept-recordable name call.0 t p a e in
            inl (record {
              table = t;
              provenance = p;
              attestation = a;
              world = call.1;
              canonical = canonical;
              recordable = f;
              outcome = rw (e) refl;
            })
        | inr (m, e) ↦ inr (record { message = m; world = call.1; outcome = rw (e) refl })
      ]

  -- Every call, refused or dispatched, answered or failed, adds exactly one entry to the log.
  length-log :
      (h : GatewayHost W) (name : Text) (args : libs.core.Table)
      → length (call_tool libs settings h name args).1.log ≡ length h.log + 1
  length-log h name args = elim (call_tool_cases h name args) [
    | inl r ↦ rw (r.outcome) (length-append h.log _)
    | inr (d, e) ↦ elim (dispatch_cases (record h { attestation = none }) name d.json) [
      | inl a ↦ rw (e, a.outcome) (length-append h.log _)
      | inr f ↦ rw (e, f.outcome) (length-append h.log _)
    ]
  ]

  -- A call that raises an error leaves no attestation, and its entry is unsigned.
  pub record Raised (h : GatewayHost W) (r : Result libs.core.Table Text × GatewayHost W)
      : Type 0 where
    pub message : Text
    pub decision : CallDecision
    pub world : W
    pub outcome : r ≡ (
      err message,
      record { log = h.log ++ (decision, unsigned) ∷ []; attestation = none; world = world },
    )

  pub call_tool_ends :
      (h : GatewayHost W) (name : Text) (args : libs.core.Table)
      → Answered h (call_tool libs settings h name args)
        ⊎ Raised h (call_tool libs settings h name args)
  call_tool_ends h name args = elim (call_tool_cases h name args) [
    | inl r ↦ inr (record {
      message = r.message;
      decision = r.decision;
      world = h.world;
      outcome = r.outcome;
    })
    | inr (d, e) ↦ elim (dispatch_cases (record h { attestation = none }) name d.json) [
      | inl a ↦ inl (record {
        table = a.table;
        provenance = a.provenance;
        attestation = a.attestation;
        world = a.world;
        canonical = a.canonical;
        recordable = a.recordable;
        outcome = e ∙ a.outcome;
      })
      | inr f ↦ inr (record {
        message = f.message;
        decision = allowed;
        world = f.world;
        outcome = e ∙ f.outcome;
      })
    ]
  ]
