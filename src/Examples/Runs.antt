-- ===== src/Examples/Runs.antt =====
-- The theorems on whole runs, on a run of this world.
use proveno_gateway.Prelude.{
  ℕ, true, Text, codes, ◌==◌, text_lt, ends_with_char, ◌↔◌, ◌⊎◌, sym, ap, subst, none, some, List,
  [], ◌++◌, ok, err, ◌≡◌, refl,
}
use proveno_gateway.Prelude.Map.{lookup, insert, remove}
use proveno_gateway.Core.{Run}
use proveno_gateway.Trace.{Trace, sign, clear_signature, verify}
use proveno_gateway.Dialect.{prelude_source, compile_program}
use proveno_gateway.Store.{
  Codec, Fs, get_trace, trace_exists, key_path, join_path, open_store, no_faults, put_program,
  put_description, put_trace,
}
use proveno_gateway.Host.{GatewayHost, interface, new, call_tool, dispatch}
use proveno_gateway.Host.Calls.{Refused, Dispatched, call_tool_cases}
use proveno_gateway.Host.Runs.{Zips, log-Zips}
use proveno_gateway.Engine.{
  outcome, ExecuteResponse, returned, failure, make_trace, description_for, run_vm, run_settings,
  allowed_schemas, execute,
}
use proveno_gateway.Engine.Trail.{
  response_of, execute-answers, signed_trace, program_put, description_put, trace_put,
}
use proveno_gateway.Description.Canonical.{build-hash}
use proveno_gateway.Config.{vm_config}
use proveno_gateway.Trace.Signing.{verify-sign}
use proveno_gateway.Replay.{replay_run, mismatches_of, no_mismatch}
use proveno_gateway.Replay.Matches.{AsRecorded, no_mismatch_iff}
use proveno_gateway.Store.Kept.{get_trace-put_trace}
use proveno_gateway.Replay.Faithful.{Replays, execute-Replays}
use proveno_gateway.Examples.World.{
  core, core-RecordsCalls, core-ReplaysRuns, crypto, crypto-IsSound, libs, tools, engine, alice,
  request, moment, empty_fs, settings, read_name, vm, store, Tape,
}

abbrev pub no_codec : Codec
no_codec = record { encode = λ s. s; decode = some; to_vec = λ t. []; from_slice = λ bytes. err [] }

-- the source of the program, which is what compiles
abbrev pub source : Text
source =
    prelude_source (description_for libs crypto no_codec tools engine alice).prelude
    ++ request.program

-- the trace that the run leaves
abbrev pub left : Trace
left = signed_trace libs crypto no_codec tools engine alice request moment source 0

-- The codec that has the one trace.
abbrev pub codec : Codec
codec = record no_codec { from_slice = λ bytes. ok left }

pub left-codec : signed_trace libs crypto codec tools engine alice request moment source 0 ≡ left
unfolding sign clear_signature make_trace description_for run_vm run_settings allowed_schemas
left-codec = refl

pub compiled :
    compile_program core
      (description_for libs crypto codec tools engine alice).prelude
      request.program
    ≡ ok source
unfolding compile_program description_for allowed_schemas
compiled = refl

put : (program_put libs crypto codec tools engine alice request moment source empty_fs).0 ≡ ok tt
unfolding put_program key_path codes lookup
put = refl

abbrev put_fs : Fs
put_fs = (program_put libs crypto codec tools engine alice request moment source empty_fs).1

takes_text :
    (text : Text)
    → (put_description codec engine.store (codes "cd34") text no_faults put_fs).0 ≡ ok tt
unfolding put_program put_description key_path codes lookup insert remove ◌==◌ join_path open_store
    ends_with_char
takes_text text = refl

hash_eq : (description_for libs crypto codec tools engine alice).hash ≡ codes "cd34"
unfolding description_for
hash_eq = build-hash tools.digest (allowed_schemas libs crypto codec tools engine alice)

described :
    (description_put libs crypto codec tools engine alice request moment source empty_fs).0 ≡ ok tt
described = rw (hash_eq) (takes_text (description_for libs crypto codec tools engine alice).text)

-- the directory of the traces is still empty
takes_trace :
    (text : Text)
    → (put_trace codec engine.store
        (signed_trace libs crypto codec tools engine alice request moment source 0)
        no_faults
        (put_description codec engine.store (codes "cd34") text no_faults put_fs).1).0
      ≡ ok tt
unfolding put_program put_description put_trace sign clear_signature make_trace key_path codes
    lookup insert remove ◌==◌ join_path open_store ends_with_char text_lt
takes_trace text = refl

stored : (trace_put libs crypto codec tools engine alice request moment source empty_fs 0).0 ≡ ok tt
stored =
    subst
      (λ (h : List ℕ).
        (put_trace codec engine.store
          (signed_trace libs crypto codec tools engine alice request moment source 0) no_faults
          (put_description codec engine.store h
            (description_for libs crypto codec tools engine alice).text no_faults put_fs).1).0
        ≡ ok tt)
      (sym hash_eq) (takes_trace (description_for libs crypto codec tools engine alice).text)

-- what the run answers, and the files and the number of calls that it leaves
abbrev pub response : ExecuteResponse
response = response_of libs crypto codec tools engine alice request moment source 0

abbrev pub left_fs : Fs
left_fs = (trace_put libs crypto codec tools engine alice request moment source empty_fs 0).1

abbrev pub left_world : ℕ
left_world = (run_vm libs crypto codec tools engine alice source 0).host.world

kept :
    failure (program_put libs crypto codec tools engine alice request moment source empty_fs).0
    ≡ none
unfolding failure
kept = ap failure put

pub executed :
    execute libs crypto codec tools engine alice request moment empty_fs 0
    ≡ (returned (ok response), left_fs, left_world)
executed =
    execute-answers libs crypto codec tools engine alice request moment core-RecordsCalls source
      empty_fs 0 compiled kept described stored

execute-Replays_example :
    Replays libs crypto codec tools engine alice request moment response no_faults no_faults left_fs
execute-Replays_example =
    execute-Replays libs crypto codec tools engine alice request moment core-ReplaysRuns
      crypto-IsSound source empty_fs left_fs 0 left_world response no_faults no_faults compiled put
      (ap ok (sym left-codec)) refl refl refl executed

abbrev vm_run : Run (List ℕ) (GatewayHost ℕ)
vm_run = core.execute (interface libs settings) (vm_config vm) source (new 0)

log-Zips_example : Zips vm_run.transcript vm_run.host.log
log-Zips_example =
    log-Zips libs settings 0 vm_run.transcript vm_run.host
      (core-RecordsCalls.calls (interface libs settings) (vm_config vm) source (new 0))

call_tool_cases_example :
    Refused libs settings (new 0) read_name []
    ⊎ (d : Dispatched libs settings read_name []) × (call_tool libs settings (new 0) read_name []
        ≡ dispatch libs settings (record (new 0) { attestation = none }) read_name d.json)
call_tool_cases_example = call_tool_cases libs settings (new 0) read_name []

abbrev fresh : GatewayHost ℕ
fresh = new 0

abbrev tape_run : Run (List ℕ) Tape
tape_run = replay_run core crypto codec tools left source

no_mismatch_iff_example :
    (no_mismatch (mismatches_of core crypto codec tools left (codes "ab12") tape_run) ≡ true) ↔ (
      (codes "ab12" ≡ left.header.program_hash)
      × (core.divergence tape_run.host ≡ none)
      × (core.remaining tape_run.host ≡ 0)
      × AsRecorded
          (outcome core tools tape_run left.header.vm_config.max_output_bytes 0)
          left.footer)
no_mismatch_iff_example = no_mismatch_iff core crypto codec tools left (codes "ab12") tape_run

verify-sign_example : verify crypto (sign crypto left (codes "5e")) (codes "5e") ≡ ok tt
verify-sign_example = verify-sign crypto crypto-IsSound left (codes "5e")

get_trace-put_trace_example :
    (get_trace codec store (codes "0a") no_faults (put_trace codec store left no_faults empty_fs).1
      ≡ ok left)
    × ((again : Trace)
        → again.header.trace_id ≡ codes "0a"
        → put_trace codec store again no_faults (put_trace codec store left no_faults empty_fs).1
          ≡ (err (trace_exists (codes "0a")), (put_trace codec store left no_faults empty_fs).1))
unfolding put_trace key_path codes lookup sign clear_signature make_trace
get_trace-put_trace_example =
    get_trace-put_trace codec store no_faults no_faults empty_fs left refl refl refl
