-- ===== src/Trace.antt =====
-- src/trace.rs: the signed trace of a run.
pub mod Signing
use proveno_gateway.Prelude.{
  ℕ, Text, Bool, true, false, Option, none, some, List, [], Result, ok, err, if◌then◌else◌,
}
use proveno_gateway.Core.{ToolCallRecord}

pub data Provenance : Type 0 where
  unsigned : Provenance
  signed : (by sig : Text) → Provenance
  onchain : (chain : Text) (block : ℕ) (reference : Text) → Provenance
  notarized : (scheme reference : Text) → Provenance

pub data CallDecision : Type 0 where
  allowed : CallDecision
  rejected_by_schema : (reason : Text) → CallDecision
  denied_by_policy : (reason : Text) → CallDecision

-- `VmSettings` of src/config.rs, which the header records
pub record VmSettings : Type 0 where
  pub gas_limit : ℕ
  pub memory_limit_bytes : ℕ
  pub max_call_depth : ℕ
  pub max_tool_calls : ℕ
  pub max_tool_bytes_in : ℕ
  pub max_tool_bytes_out : ℕ
  pub max_output_bytes : ℕ

pub record TraceHeader : Type 0 where
  pub trace_id : Text
  pub session : Option Text
  pub principal : Text
  pub program_hash : Text
  pub gateway_policy_hash : Text
  pub description_hash : Text
  pub vm_version : Text
  pub vm_config : VmSettings
  pub request : Option Text

pub record TraceEntry : Type 0 where
  pub call_record : ToolCallRecord
  pub decision : CallDecision
  pub provenance : Provenance

pub data RunStatus : Type 0 where
  finished : RunStatus
  error : (kind message : Text) → RunStatus

pub record TraceFooter : Type 0 where
  pub output : Option Text
  pub status : RunStatus
  pub gas_used : ℕ
  pub memory_used : ℕ
  pub signature : Text

pub record Trace : Type 0 where
  pub header : TraceHeader
  pub entries : List TraceEntry
  pub footer : TraceFooter

pub data TraceError : Type 0 where
  invalid_signing_key malformed_signature signature_mismatch : TraceError

-- The libraries that signing calls: serde_json, sha2, hex and ed25519-dalek. `decode_hex n s` is
-- `hex::decode_to_slice` into a buffer of `n` bytes.
pub record Crypto : Type 1 where
  pub SigningKey : Type 0
  pub VerifyingKey : Type 0
  pub to_vec : Trace → List ℕ
  pub sha256 : List ℕ → List ℕ
  pub encode_hex : List ℕ → Text
  pub decode_hex : ℕ → Text → Option (List ℕ)
  pub key_from_bytes : List ℕ → SigningKey
  pub verifying_key : SigningKey → VerifyingKey
  pub sign : SigningKey → List ℕ → List ℕ
  pub verify_strict : VerifyingKey → List ℕ → List ℕ → Bool

abbrev pub signature_length : ℕ
signature_length = 64

abbrev pub secret_key_length : ℕ
secret_key_length = 32

-- `footer.signature.clear()`
unfoldable pub clear_signature : Trace → Trace
clear_signature t = record t { footer = record t.footer { signature = [] } }

module _ (crypto : Crypto) where
  open crypto use {SigningKey, VerifyingKey}

  unfoldable pub digest : Trace → List ℕ
  digest t = crypto.sha256 (crypto.to_vec t)

  unfoldable pub sign : Trace → SigningKey → Trace
  sign t key =
      let cleared = clear_signature t in
      let signature = crypto.sign key (digest cleared) in
      record cleared { footer = record cleared.footer { signature = crypto.encode_hex signature } }

  unfoldable pub verify : Trace → VerifyingKey → Result (Unit {0}) TraceError
  verify t key = elim (crypto.decode_hex signature_length t.footer.signature) [
    | none ↦ err malformed_signature
    | some signature ↦
        if crypto.verify_strict key (digest (clear_signature t)) signature
        then ok tt
        else err signature_mismatch
  ]

  unfoldable pub signing_key_from_hex : Text → Result SigningKey TraceError
  signing_key_from_hex hex = elim (crypto.decode_hex secret_key_length hex) [
    | none ↦ err invalid_signing_key
    | some seed ↦ ok (crypto.key_from_bytes seed)
  ]
