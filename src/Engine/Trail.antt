-- ===== src/Engine/Trail.antt =====
-- What a run that returned a response has done.
use proveno_gateway.Prelude.{
  Text, Bool-cases, nat_eq, nat_eq_iff, Option-cases, none, ◌++◌, length, Result, ok, Result-cases,
  ◌≡◌, inl, inr, arith,
}
use proveno_gateway.Core.{RecordsCalls}
use proveno_gateway.Trace.{Trace, Crypto, sign}
use proveno_gateway.Dialect.{lint, panic, compile_program}
use proveno_gateway.Config.{vm_config}
use proveno_gateway.Store.{StoreError, Codec, Fs, put_program, put_description, put_trace}
use proveno_gateway.Host.{Libraries, new, interface}
use proveno_gateway.Host.Runs.{length-Zips, log-Zips}
use proveno_gateway.Engine.{
  failure, Tools, Engine, ExecuteRequest, ExecuteResponse, returned, Moment, description_for,
  run_vm, run_settings, make_trace, finish, run_and_store, store_description, store_program,
  execute, parsed,
}

module _ {W : Type 0} (libs : Libraries W) (crypto : Crypto) (codec : Codec) (tools : Tools)
    (engine : Engine libs.rmcp.Client crypto.SigningKey) (principal : Text) (req : ExecuteRequest)
    (moment : Moment) where
  open libs use {core}

  -- the states of the file system between the puts, and the signed trace
  abbrev pub program_put : core.Program → Fs → Result (Unit {0}) StoreError × Fs
  program_put program fs =
      put_program codec engine.store (crypto.encode_hex (core.program_hash program))
        ((description_for libs crypto codec tools engine principal).prelude ++ req.program)
        moment.program_faults fs

  abbrev pub description_put : core.Program → Fs → Result (Unit {0}) StoreError × Fs
  description_put program fs =
      put_description codec engine.store
        (crypto.encode_hex (description_for libs crypto codec tools engine principal).hash)
        (description_for libs crypto codec tools engine principal).text moment.description_faults
        (program_put program fs).1

  abbrev pub signed_trace : core.Program → W → Trace
  signed_trace program w =
      sign crypto
        (make_trace libs crypto codec tools engine principal req moment program
          (description_for libs crypto codec tools engine principal)
          (run_vm libs crypto codec tools engine principal program w))
        engine.signing_key

  abbrev pub trace_put : core.Program → Fs → W → Result (Unit {0}) StoreError × Fs
  trace_put program fs w =
      put_trace codec engine.store (signed_trace program w) moment.trace_faults
        (description_put program fs).1

  pub record Completed (fs : Fs) (w : W) (resp : ExecuteResponse) (fs' : Fs) : Type 0 where
    pub program : core.Program
    pub compiled :
        compile_program core
          (description_for libs crypto codec tools engine principal).prelude
          req.program
        ≡ ok program
    pub kept : failure (program_put program fs).0 ≡ none
    pub described : (description_put program fs).0 ≡ ok tt
    pub logged :
        length (run_vm libs crypto codec tools engine principal program w).transcript
        ≡ length (run_vm libs crypto codec tools engine principal program w).host.log
    pub stored : (trace_put program fs w).0 ≡ ok tt
    pub final : fs' ≡ (trace_put program fs w).1
    pub response : resp ≡ record {
      result = parsed libs crypto codec tools (signed_trace program w).footer.output;
      trace_id = (signed_trace program w).header.trace_id;
      status = (signed_trace program w).footer.status;
    }

  -- The log is as long as the transcript, so the assertion of the engine holds.
  pub log-length :
      (records : RecordsCalls core) (program : core.Program) (w : W)
      → length (run_vm libs crypto codec tools engine principal program w).transcript
        ≡ length (run_vm libs crypto codec tools engine principal program w).host.log
  unfolding run_vm
  log-length records program w = length-Zips _ _ (
      log-Zips libs (run_settings libs crypto codec tools engine principal) w _ _ (
        records.calls (interface libs (run_settings libs crypto codec tools engine principal))
          (vm_config engine.vm) program (new w)))

  stored-Completed :
      (program : core.Program) (fs fs' : Fs) (w w' : W) (resp : ExecuteResponse)
      → compile_program core
          (description_for libs crypto codec tools engine principal).prelude
          req.program
        ≡ ok program
      → failure (program_put program fs).0 ≡ none
      → (description_put program fs).0 ≡ ok tt
      → run_and_store libs crypto codec tools engine principal req moment program
          (description_for libs crypto codec tools engine principal)
          (description_put program fs).1
          w
        ≡ (returned (ok resp), fs', w')
      → Completed fs w resp fs'
  unfolding run_and_store
  stored-Completed program fs fs' w w' resp compiled kept described h =
      let run = run_vm libs crypto codec tools engine principal program w in
      elim (Bool-cases (nat_eq (length run.transcript) (length run.host.log))) [
        | inr unequal ↦ absurd (ground arith)
        | inl equal ↦ elim (Result-cases (trace_put program fs w).0) [
          | inr (e, failed) ↦ absurd (ground arith)
          | inl (u, stored) ↦ record {
            program = program;
            compiled = compiled;
            kept = kept;
            described = described;
            logged = (nat_eq_iff _ _).0 equal;
            stored = ground arith;
            final = ground arith;
            response = ground arith;
          }
        ]
      ]

  -- Whatever `execute` answers with a response, all of its steps were taken.
  pub execute-Completed :
      (fs fs' : Fs) (w w' : W) (resp : ExecuteResponse)
      → execute libs crypto codec tools engine principal req moment fs w
        ≡ (returned (ok resp), fs', w')
      → Completed fs w resp fs'
  unfolding execute store_program store_description
  execute-Completed fs fs' w w' resp h =
      elim (Result-cases (
        compile_program core (description_for libs crypto codec tools engine principal).prelude
          req.program)) [
            | inr (lint e, bad) ↦ absurd (ground arith)
            | inr (panic m, bad) ↦ absurd (ground arith)
            | inl (program, good) ↦ elim (Option-cases (failure (program_put program fs).0)) [
              | inr (e, failed) ↦ absurd (ground arith)
              | inl kept ↦ elim (Result-cases (description_put program fs).0) [
                | inr (e, failed) ↦ absurd (ground arith)
                | inl (u, described) ↦
                    stored-Completed program fs fs' w w' resp good kept (ground arith)
                      (ground arith)
              ]
            ]
          ]

  abbrev pub response_of : core.Program → W → ExecuteResponse
  response_of program w =
      let trace = signed_trace program w in
      record {
        result = parsed libs crypto codec tools trace.footer.output;
        trace_id = trace.header.trace_id;
        status = trace.footer.status;
      }

  -- Over a VM that records its calls, a program that compiles, whose source does not fail to be
  -- stored, and whose description and trace are stored, is answered with the response of its trace.
  pub execute-answers :
      (records : RecordsCalls core) (program : core.Program) (fs : Fs) (w : W)
      → compile_program core
          (description_for libs crypto codec tools engine principal).prelude
          req.program
        ≡ ok program
      → failure (program_put program fs).0 ≡ none
      → (description_put program fs).0 ≡ ok tt
      → (trace_put program fs w).0 ≡ ok tt
      → execute libs crypto codec tools engine principal req moment fs w ≡ (
        returned (ok (response_of program w)),
        (trace_put program fs w).1,
        (run_vm libs crypto codec tools engine principal program w).host.world,
      )
  unfolding execute store_program store_description run_and_store finish
  execute-answers records program fs w compiled kept described stored =
      ground (arith, compiled, kept, described, stored, log-length records program w)
