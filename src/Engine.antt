-- ===== src/Engine.antt =====
-- src/engine.rs: one program, from its text to a stored trace.
mod Outcomes
pub mod Status
pub mod Names
pub mod Trail
pub mod Files
pub mod Permits
pub mod Start
unfoldable pub use Outcomes.*
use proveno_gateway.Prelude.{
  ℕ, ◌-◌, ltb, Text, decimal, codes, ◌==◌, count_char, Bool, Option, none, some, List, [], ◌∷◌,
  ◌++◌, length, nat_eq, not, keep_if, Result, ok, err, ◌>>=◌, if◌then◌else◌,
}
use proveno_gateway.Prelude.Map.{contains}
use proveno_gateway.Json.{Json}
use proveno_gateway.Core.{
  Core, VmError, with_line, gas_exhausted, memory_exhausted, call_depth_exceeded, type_error,
  runtime_error, tool_error, output_exceeded, ExecOutput, Run, ToolCallRecord,
}
use proveno_gateway.Trace.{
  Provenance, CallDecision, VmSettings, Trace, TraceEntry, RunStatus, finished, error, Crypto, sign,
}
use proveno_gateway.Policy.{Policy, allowed_tools, policy_hash}
use proveno_gateway.Downstream.{ToolSchema, Downstreams, qualified_name}
use proveno_gateway.Dialect.{LintError, CompileFault, lint, panic, as_u32, compile_program}
use proveno_gateway.Description
use proveno_gateway.Description.{ToolDescription}
use proveno_gateway.Config.{vm_config}
use proveno_gateway.Store.{
  StoreError, conflict, TraceStore, Codec, Faults, Fs, put_program, put_description, put_trace,
}
use proveno_gateway.Host.{Libraries, Settings, GatewayHost, new, interface}

abbrev pub vm_version : Text
vm_version = codes "proveno-core v0.4.0"

pub record ExecuteRequest : Type 0 where
  pub program : Text
  pub session : Option Text
  pub request : Option Text

pub record ExecuteResponse : Type 0 where
  pub result : Option Json
  pub trace_id : Text
  pub status : RunStatus

pub data ExecuteError : Type 0 where
  lint_failed : LintError → ExecuteError
  store_failed : StoreError → ExecuteError

-- `execute` returns, or panics.
pub data Executed : Type 0 where
  returned : Result ExecuteResponse ExecuteError → Executed
  panicked : Text → Executed

pub record Engine (Client SigningKey : Type 0) : Type 0 where
  pub vm : VmSettings
  pub policy : Policy
  pub downstreams : Downstreams Client
  pub store : TraceStore
  pub signing_key : SigningKey

-- What the system decides in one `execute`: the fresh id, and what it refuses the store.
pub record Moment : Type 0 where
  pub trace_id : Text
  pub program_faults : Faults
  pub description_faults : Faults
  pub trace_faults : Faults

-- A conflict of `put_program` is no failure: the source that is there is kept.
unfoldable pub failure : Result (Unit {0}) StoreError → Option StoreError
failure (ok _) = none
failure (err (conflict kind key)) = none
failure (err e) = some e

-- `transcript.iter().zip(log)`
unfoldable pub zip_entries :
    List ToolCallRecord → List (CallDecision × Provenance) → List TraceEntry
zip_entries (r ∷ rs) ((decision, provenance) ∷ log) =
    record { call_record = r; decision = decision; provenance = provenance } ∷ zip_entries rs log
zip_entries _ _ = []

-- the message of the assertion
pub unequal_logs : ℕ → ℕ → Text
unequal_logs recorded seen =
    codes "bug: core recorded "
    ++ decimal recorded
    ++ codes " tool calls but the host saw "
    ++ decimal seen

module _ {W : Type 0} (libs : Libraries W) (crypto : Crypto) (codec : Codec) (tools : Tools) where
  open libs use {core, rmcp}

  unfoldable pub allowed_schemas : Engine rmcp.Client crypto.SigningKey → Text → List ToolSchema
  allowed_schemas engine principal =
      let allowed = allowed_tools engine.policy principal in
      keep_if (λ t. contains (qualified_name t) allowed) engine.downstreams.tools

  unfoldable pub description_for : Engine rmcp.Client crypto.SigningKey → Text → ToolDescription
  description_for engine principal =
      Description.build tools.digest (allowed_schemas engine principal)

  -- `check`: an error is a lint error, or the panic of a prelude that does not compile
  unfoldable pub check :
      Engine rmcp.Client crypto.SigningKey → Text → Text → Result (Unit {0}) CompileFault
  check engine principal program =
      compile_program core (description_for engine principal).prelude program >>= λ p. ok tt

  -- What the run leaves: the entries and the outcome, or the failed assertion.
  unfoldable pub run_settings : Engine rmcp.Client crypto.SigningKey → Text → Settings rmcp.Client
  run_settings engine principal = record {
    principal = principal;
    downstreams = engine.downstreams;
    allowed = allowed_schemas engine principal;
    policy = engine.policy;
  }

  unfoldable pub run_vm :
      Engine rmcp.Client crypto.SigningKey
      → Text
      → core.Program
      → W
      → Run core.LuaValue (GatewayHost W)
  run_vm engine principal program w =
      core.execute (interface libs (run_settings engine principal)) (vm_config engine.vm) program
        (new w)

  -- the trace before it is signed
  unfoldable pub make_trace :
      Engine rmcp.Client crypto.SigningKey
      → Text
      → ExecuteRequest
      → Moment
      → core.Program
      → ToolDescription
      → Run core.LuaValue (GatewayHost W)
      → Trace
  unfolding zip_entries
  make_trace engine principal req moment program description run =
      let prelude_lines = as_u32 (count_char b'\n' description.prelude) in
      let out = outcome core tools run engine.vm.max_output_bytes prelude_lines in
      record {
        header = record {
          trace_id = moment.trace_id;
          session = req.session;
          principal = principal;
          program_hash = crypto.encode_hex (core.program_hash program);
          gateway_policy_hash =
              crypto.encode_hex (policy_hash tools.policy_bytes tools.sha256 engine.policy);
          description_hash = crypto.encode_hex description.hash;
          vm_version = vm_version;
          vm_config = engine.vm;
          request = req.request;
        };
        entries = zip_entries run.transcript run.host.log;
        footer = record {
          output = out.output;
          status = out.status;
          gas_used = out.gas_used;
          memory_used = out.memory_used;
          signature = [];
        };
      }

  abbrev pub parsed : Option Text → Option Json
  parsed none = none
  parsed (some json) = some (tools.from_str json)

  -- sign, store, respond
  unfoldable pub finish : Engine rmcp.Client crypto.SigningKey → Trace → Faults → Fs → Executed × Fs
  finish engine unsigned f fs =
      let trace = sign crypto unsigned engine.signing_key in
      let (stored, fs') = put_trace codec engine.store trace f fs in
      elim stored [
        | err e ↦ (returned (err (store_failed e)), fs')
        | ok _ ↦ (
          returned (
              ok (record {
                result = parsed trace.footer.output;
                trace_id = trace.header.trace_id;
                status = trace.footer.status;
              })),
          fs',
        )
      ]

  unfoldable pub run_and_store :
      Engine rmcp.Client crypto.SigningKey
      → Text
      → ExecuteRequest
      → Moment
      → core.Program
      → ToolDescription
      → Fs
      → W
      → Executed × Fs × W
  unfolding run_vm make_trace finish
  run_and_store engine principal req moment program description fs w =
      let run = run_vm engine principal program w in
      if not (nat_eq (length run.transcript) (length run.host.log))
      then (
        panicked (unequal_logs (length run.transcript) (length run.host.log)),
        fs,
        run.host.world,
      )
      else let (done, fs') =
          finish engine (make_trace engine principal req moment program description run)
            moment.trace_faults fs in
        (done, fs', run.host.world)

  unfoldable pub store_description :
      Engine rmcp.Client crypto.SigningKey
      → Text
      → ExecuteRequest
      → Moment
      → core.Program
      → ToolDescription
      → Fs
      → W
      → Executed × Fs × W
  unfolding run_and_store
  store_description engine principal req moment program description fs w =
      let (stored, fs') =
        put_description codec engine.store (crypto.encode_hex description.hash) description.text
          moment.description_faults fs in
      elim stored [
        | err e ↦ (returned (err (store_failed e)), fs', w)
        | ok _ ↦ run_and_store engine principal req moment program description fs' w
      ]

  -- a conflict keeps the source that is there
  unfoldable pub store_program :
      Engine rmcp.Client crypto.SigningKey
      → Text
      → ExecuteRequest
      → Moment
      → core.Program
      → ToolDescription
      → Fs
      → W
      → Executed × Fs × W
  unfolding store_description
  store_program engine principal req moment program description fs w =
      let (stored, fs') =
        put_program codec engine.store (crypto.encode_hex (core.program_hash program))
          (description.prelude ++ req.program) moment.program_faults fs in
      let go = store_description engine principal req moment program description fs' w in
      elim (failure stored) [ none ↦ go | some e ↦ (returned (err (store_failed e)), fs', w) ]

  unfoldable pub execute :
      Engine rmcp.Client crypto.SigningKey
      → Text
      → ExecuteRequest
      → Moment
      → Fs
      → W
      → Executed × Fs × W
  unfolding store_program
  execute engine principal req moment fs w =
      let description = description_for engine principal in
      elim (compile_program core description.prelude req.program) [
        | err (lint e) ↦ (returned (err (lint_failed e)), fs, w)
        | err (panic m) ↦ (panicked m, fs, w)
        | ok program ↦ store_program engine principal req moment program description fs w
      ]
