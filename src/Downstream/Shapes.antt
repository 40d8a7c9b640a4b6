-- ===== src/Downstream/Shapes.antt =====
-- The shape of the responses that reach a program.
use proveno_gateway.Prelude.{
  ℕ, List, Text, split_once, true, Bool-cases, Option, Option-cases, Result, ok, err, map_err,
  map_err-eq-ok, >>=-eq-ok, ok-inj, ◌≡◌, refl, sym, subst, inl, inr, arith,
}
use proveno_gateway.Prelude.Map.{lookup}
use proveno_gateway.Json.{Json, Members, Serde, is_object}
use proveno_gateway.Trace.{Provenance}
use proveno_gateway.Downstream.{
  dot, CallToolResult, ToolResponse, Downstreams, Rmcp, ProvenanceSerde, as_table, result_value,
  is_true, is_known, map_result, read_provenance, read_response, malformed_provenance, call_failed,
  arguments_of, dispatch, call_split, call,
}
use proveno_gateway.Downstream.Reports.{Complete, read_provenance-Taken}

as_table-object : (v : Json) → is_object (as_table v) ≡ true
as_table-object (Json.object ms) = refl
as_table-object _ = refl

map_result-object :
    (serde : Serde) (result : CallToolResult) (v : Json)
    → map_result serde result ≡ ok v
    → is_object v ≡ true
unfolding map_result
map_result-object serde result v h = elim (Bool-cases (is_true result.is_error)) [
  | inl failed ↦ absurd (ground arith)
  | inr fine ↦ ground (arith, as_table-object (result_value serde result))
]

read_provenance-Complete :
    (ps : ProvenanceSerde) (meta : Option Members) (p : Provenance) (attestation : List ℕ)
    → read_provenance ps meta ≡ ok (p, attestation)
    → Complete p
read_provenance-Complete ps meta p attestation h =
    elim (read_provenance-Taken ps meta p attestation h) [
      | inl (nowhere, plain, blank) ↦ subst Complete (sym plain) tt
      | inr taken ↦ taken.complete
    ]

-- An object, with provenance no text of which is empty.
abbrev pub WellFormed : ToolResponse → Type 0
WellFormed r = (is_object r.value ≡ true) × Complete r.provenance

module _ {W : Type 0} (serde : Serde) (ps : ProvenanceSerde) (rmcp : Rmcp W) where
  read_response-WellFormed :
      (qualified server : Text) (result : CallToolResult) (r : ToolResponse)
      → read_response serde ps rmcp qualified server result ≡ ok r
      → WellFormed r
  unfolding read_response
  read_response-WellFormed qualified server result r h =
      let (v, e, h1) = >>=-eq-ok (map_result serde result) _ h in
      let ((p, a), f, h2) =
        >>=-eq-ok (map_err (malformed_provenance qualified server) (read_provenance ps result.meta))
          _ h1 in
      subst WellFormed (ok-inj {E = Text} h2) (
        map_result-object serde result v e,
        read_provenance-Complete ps result.meta p a (map_err-eq-ok _ _ f),
      )

  dispatch-WellFormed :
      (client : rmcp.Client) (qualified server tool : Text) (args : Result (Option Members) Text)
      (w : W) (r : ToolResponse)
      → (dispatch serde ps rmcp client qualified server tool args w).0 ≡ ok r
      → WellFormed r
  dispatch-WellFormed client qualified server tool (err e) w r h = absurd (ground arith)
  dispatch-WellFormed client qualified server tool (ok arguments) w r h =
      let (result, e, h1) =
        >>=-eq-ok (map_err (call_failed qualified) (rmcp.call_tool client tool arguments w).0) _
          h in
      read_response-WellFormed qualified server result r h1

  -- Whatever a server answers, a response that is passed on is an object, and no text of its
  -- provenance is empty.
  pub call-WellFormed :
      (d : Downstreams rmcp.Client) (qualified : Text) (args : Json) (w w' : W) (r : ToolResponse)
      → call serde ps rmcp d qualified args w ≡ (ok r, w')
      → WellFormed r
  unfolding call call_split
  call-WellFormed d qualified args w w' r h = elim (Option-cases (split_once dot qualified)) [
    | inl whole ↦ absurd (ground arith)
    | inr ((server, tool), parts) ↦ elim (Option-cases (lookup server d.clients)) [
      | inl nobody ↦ absurd (ground arith)
      | inr (client, there) ↦ elim (Bool-cases (is_known serde ps rmcp d.tools server tool)) [
        | inr unknown ↦ absurd (ground arith)
        | inl known ↦
            dispatch-WellFormed client qualified server tool (arguments_of qualified args) w r
              (ground arith)
      ]
    ]
  ]
