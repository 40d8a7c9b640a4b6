-- ===== src/Downstream/Results.antt =====
-- What the gateway makes of a result.
use proveno_gateway.Prelude.{ℕ, List, Text, concat, true, false, some, ok, err, ◌≡◌, arith}
use proveno_gateway.Json.{Members, Serde, object}
use proveno_gateway.Trace.{Provenance}
use proveno_gateway.Downstream.{
  CallToolResult, Rmcp, ProvenanceSerde, texts, result_value, map_result, read_provenance,
  read_response,
}

module _ (serde : Serde) (result : CallToolResult) where
  pub map_result-error :
      result.is_error ≡ some true → map_result serde result ≡ err (concat (texts result.content))
  unfolding map_result
  map_result-error h = ground arith

  pub map_result-structured :
      (ms : Members)
      → result.is_error ≡ some false
      → result.structured_content ≡ some (object ms)
      → map_result serde result ≡ ok (object ms)
  unfolding map_result result_value
  map_result-structured ms h k = ground arith

  module _ {W : Type 0} (rmcp : Rmcp W) (ps : ProvenanceSerde) (qualified server : Text) where
    pub read_response-error :
        result.is_error ≡ some true
        → read_response serde ps rmcp qualified server result ≡ err (concat (texts result.content))
    unfolding read_response
    read_response-error h = ground (arith, map_result-error h)

    pub read_response-structured :
        (ms : Members) (p : Provenance) (attestation : List ℕ)
        → result.is_error ≡ some false
        → result.structured_content ≡ some (object ms)
        → read_provenance ps result.meta ≡ ok (p, attestation)
        → read_response serde ps rmcp qualified server result
          ≡ ok (record { value = object ms; provenance = p; attestation = attestation })
    unfolding read_response
    read_response-structured ms p attestation h k found =
        ground (arith, map_result-structured ms h k)
