-- ===== src/Replay.antt =====
-- src/replay.rs: running a stored trace again, over its own records.
pub mod Matches
pub mod Again
pub mod Faithful
pub mod History
use proveno_gateway.Prelude.{
  ℕ, ltb, nat_eq, Text, decimal, codes, ◌==◌, Bool, true, false, not, Option, none, some, List, [],
  ◌∷◌, ◌++◌, length, map, Result, ok, err, ◌>>=◌, map_err, if◌then◌else◌,
}
use proveno_gateway.Core.{Core, ParseError, CompileError, TapeCall, Divergence, Run, ToolCallRecord}
use proveno_gateway.Trace.{
  Trace, TraceEntry, TraceError, TraceFooter, RunStatus, finished, error, Crypto, verify,
  signing_key_from_hex,
}
use proveno_gateway.Config.{GatewayConfig, ConfigError, resolve, vm_config}
use proveno_gateway.Store.{
  StoreError, TraceStore, Codec, Faults, Fs, open_store, get_trace, get_program,
}
use proveno_gateway.Engine.{Tools, Outcome, outcome}
use proveno_gateway.Engine.Status.{status_kind}

-- Why there is no report, in the order in which the steps may fail.
pub data ReplayError : Type 0 where
  unresolved_key : ConfigError → ReplayError
  bad_key : TraceError → ReplayError
  no_store : Text → ReplayError
  no_trace : StoreError → ReplayError
  bad_signature : TraceError → ReplayError
  no_program : StoreError → ReplayError
  not_parsed : ParseError → ReplayError
  not_compiled : CompileError → ReplayError
  not_verified : Text → ReplayError

pub record ReplayReport : Type 0 where
  pub trace_id : Text
  pub matched : Bool
  pub mismatches : List Text
  pub output : Option Text
  pub status : RunStatus
  pub gas_used : ℕ
  pub memory_used : ℕ

abbrev pub option_eq : Option Text → Option Text → Bool
option_eq none none = true
option_eq (some a) (some b) = a == b
option_eq _ _ = false

-- one entry if the test fails
abbrev pub unless : Bool → Text → List Text
unless true message = []
unless false message = message ∷ []

program_hash_differs : Text → Text → Text
program_hash_differs header compiled =
    codes "program_hash: header has " ++ header ++ codes ", stored source compiles to " ++ compiled

unconsumed : ℕ → ℕ → Text
unconsumed remaining recorded =
    codes "tape: "
    ++ decimal remaining
    ++ codes " of "
    ++ decimal recorded
    ++ codes " recorded calls left unconsumed"

differs : Text → Text → Text → Text
differs what recorded replayed =
    what ++ codes ": recorded " ++ recorded ++ codes ", replayed " ++ replayed

abbrev pub or_none : Option Text → Text
or_none none = codes "none"
or_none (some s) = s

module _ (tools : Tools) where
  describe_call : TapeCall → Text
  describe_call call = call.tool_name ++ codes " " ++ tools.lossy call.args_canonical

  abbrev expected_text : Option TapeCall → Text
  expected_text none = codes "no recorded call"
  expected_text (some call) = describe_call call

  divergence_text : Divergence → Text
  unfolding describe_call
  divergence_text d =
      codes "divergence at seq "
      ++ decimal d.seq
      ++ codes ": expected "
      ++ expected_text d.expected
      ++ codes ", actual "
      ++ describe_call d.actual

  abbrev diverged : Option Divergence → List Text
  diverged none = []
  diverged (some d) = divergence_text d ∷ []

-- the comparisons with the footer
pub compare_footer : {core : Core} {tools : Tools} → Outcome core tools → TraceFooter → List Text
compare_footer out footer =
    unless (option_eq out.output footer.output)
      (differs (codes "output") (or_none footer.output) (or_none out.output))
    ++ (unless (status_kind out.status == status_kind footer.status)
          (differs (codes "status") (status_kind footer.status) (status_kind out.status))
        ++ (unless (nat_eq out.gas_used footer.gas_used)
              (differs (codes "gas_used") (decimal footer.gas_used) (decimal out.gas_used))
            ++ unless (nat_eq out.memory_used footer.memory_used) (
                differs (codes "memory_used") (decimal footer.memory_used)
                  (decimal out.memory_used))))

abbrev pub no_mismatch : List Text → Bool
no_mismatch [] = true
no_mismatch (m ∷ ms) = false

module _ (core : Core) (crypto : Crypto) (codec : Codec) (tools : Tools) where
  -- the VM over the tape of the trace's records
  unfoldable pub replay_run : Trace → core.Program → Run core.LuaValue core.TapeHost
  replay_run trace program =
      core.execute core.tape_host (vm_config trace.header.vm_config) program
        (core.strict_tape (map (λ (e : TraceEntry). e.call_record) trace.entries))

  pub mismatches_of : Trace → Text → Run core.LuaValue core.TapeHost → List Text
  unfolding compare_footer
  mismatches_of trace program_hash run =
      let records = map (λ (e : TraceEntry). e.call_record) trace.entries in
      unless (program_hash == trace.header.program_hash)
        (program_hash_differs trace.header.program_hash program_hash)
      ++ (diverged tools (core.divergence run.host)
          ++ (unless (not (ltb 0 (core.remaining run.host)))
                (unconsumed (core.remaining run.host) (length records))
              ++ compare_footer (outcome core tools run trace.header.vm_config.max_output_bytes 0)
                  trace.footer))

  abbrev pub report_of : Text → Trace → core.Program → ReplayReport
  report_of trace_id trace program =
      let run = replay_run trace program in
      let out = outcome core tools run trace.header.vm_config.max_output_bytes 0 in
      let mismatches = mismatches_of trace (crypto.encode_hex (core.program_hash program)) run in
      record {
        trace_id = trace_id;
        matched = no_mismatch mismatches;
        mismatches = mismatches;
        output = out.output;
        status = out.status;
        gas_used = out.gas_used;
        memory_used = out.memory_used;
      }

  pub recompile : Text → Result core.Program ReplayError
  recompile source = do
    block ← map_err not_parsed (core.parse source)
    program ← map_err not_compiled (core.compile block)
    u ← map_err not_verified (core.verify program)
    ok program

  pub replay_with :
      crypto.SigningKey → TraceStore → Text → Faults → Faults → Fs → Result ReplayReport ReplayError
  unfolding recompile replay_run mismatches_of
  replay_with key store trace_id trace_faults program_faults fs = do
    trace ← map_err no_trace (get_trace codec store trace_id trace_faults fs)
    u ← map_err bad_signature (verify crypto trace (crypto.verifying_key key))
    source ←
        map_err no_program (get_program codec store trace.header.program_hash program_faults fs)
    program ← recompile source
    ok (report_of trace_id trace program)

  -- `var` is the environment, `create_dirs` what making the directories of the store comes to; the
  -- two `Faults` are what the system refuses each read.
  unfoldable pub replay :
      (var : Text → Option Text) (create_dirs : Result (Unit {0}) Text)
      → GatewayConfig
      → Text
      → Faults
      → Faults
      → Fs
      → Result ReplayReport ReplayError
  unfolding replay_with
  replay var create_dirs config trace_id trace_faults program_faults fs = do
    hex ← map_err unresolved_key (resolve var config.server.signing_key)
    key ← map_err bad_key (signing_key_from_hex crypto hex)
    u ← map_err no_store create_dirs
    replay_with key (open_store config.store.dir) trace_id trace_faults program_faults fs
