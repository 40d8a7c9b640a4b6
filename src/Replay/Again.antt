-- ===== src/Replay/Again.antt =====
-- A recorded run, and the replay of it by a program that is alike.
use proveno_gateway.Prelude.{
  map_err, Text, count_char, true, List, [], ◌∷◌, ◌++◌, length, map, none, ok, ◌≡◌, refl, sym, ap,
  ◌∙◌, arith,
}
use proveno_gateway.Core.{
  Core, Run, VmConfig, ToolCallRecord, ReplaysRuns, SameEnd, HashFixesRuns, unlined,
}
use proveno_gateway.Trace.{
  Provenance, CallDecision, Trace, TraceEntry, Crypto, sign, verify, clear_signature,
}
use proveno_gateway.Config.{vm_config}
use proveno_gateway.Dialect.{as_u32, compile_program, prelude_source}
use proveno_gateway.Dialect.Offsets.{compile_program-eq-ok}
use proveno_gateway.Description.Canonical.{prelude_source-build}
use proveno_gateway.Store.{Codec, Faults, Fs, get_trace, get_program}
use proveno_gateway.Host.{Libraries, GatewayHost, interface, new}
use proveno_gateway.Host.Runs.{interface-Recordable}
use proveno_gateway.Engine.{
  Tools, Engine, ExecuteRequest, Moment, zip_entries, allowed_schemas, description_for,
  run_settings, run_vm, make_trace, outcome,
}
use proveno_gateway.Engine.Status.{outcome-SameOutcome}
use proveno_gateway.Description.{ToolDescription}
use proveno_gateway.Engine.Trail.{signed_trace}
use proveno_gateway.Replay.{ReplayReport, replay_with, recompile, replay_run, report_of}
use proveno_gateway.Replay.Matches.{no_mismatch_iff, AsRecorded}

-- Programs of one hash that, over any tape, make the same calls and end alike but for line numbers.
pub record Alike (core : Core) (p q : core.Program) : Type 0 where
  pub hash : core.program_hash p ≡ core.program_hash q
  pub end :
      (config : VmConfig) (tape : core.TapeHost)
      → SameEnd
          (core.execute core.tape_host config p tape)
          (core.execute core.tape_host config q tape)
  pub host :
      (config : VmConfig) (tape : core.TapeHost)
      → (core.execute core.tape_host config p tape).host
        ≡ (core.execute core.tape_host config q tape).host

pub Alike-refl : (core : Core) (p : core.Program) → Alike core p p
Alike-refl core p = record {
  hash = refl;
  end = λ config tape. record { result = refl; gas_used = refl; memory_used = refl };
  host = λ config tape. refl;
}

pub HashFixesRuns-Alike :
    (core : Core) (p q : core.Program)
    → HashFixesRuns core
    → core.program_hash p ≡ core.program_hash q
    → Alike core p q
HashFixesRuns-Alike core p q fixes same = record {
  hash = same;
  end = λ config tape. fixes.end core.tape_host config p q tape same;
  host = λ config tape. fixes.host core.tape_host config p q tape same;
}

-- The records of the entries are the transcript.
records-zip_entries :
    (rs : List ToolCallRecord) (log : List (CallDecision × Provenance))
    → length rs ≡ length log
    → map (λ (e : TraceEntry). e.call_record) (zip_entries rs log) ≡ rs
unfolding zip_entries
records-zip_entries [] [] h = refl
records-zip_entries [] (e ∷ log) h = refl
records-zip_entries (r ∷ rs) [] h = absurd (omega arith)
records-zip_entries (r ∷ rs) (e ∷ log) h =
    ap (λ l. r ∷ l) (records-zip_entries rs log (omega arith))

module _ {W : Type 0} (libs : Libraries W) (crypto : Crypto) (codec : Codec) (tools : Tools)
    (engine : Engine libs.rmcp.Client crypto.SigningKey) (principal : Text) (req : ExecuteRequest)
    (moment : Moment) where
  open libs use {core}

  abbrev pub described : ToolDescription
  described = description_for libs crypto codec tools engine principal

  prelude_source-described : prelude_source described.prelude ≡ described.prelude
  unfolding description_for
  prelude_source-described =
      prelude_source-build tools.digest (allowed_schemas libs crypto codec tools engine principal)

  -- the stored source compiles to what ran
  pub recompile-source :
      (p : core.Program)
      → compile_program core described.prelude req.program ≡ ok p
      → recompile core crypto codec tools (described.prelude ++ req.program) ≡ ok p
  unfolding recompile
  recompile-source p h =
      let (block, e, f, g) = compile_program-eq-ok core described.prelude req.program p h in
      let e' =
        ap (λ (s : Text). core.parse (s ++ req.program)) (sym prelude_source-described) ∙ e in
      ground (arith, e', f, g)

  module _ (p : core.Program) (w : W) where
    abbrev pub ran : Run core.LuaValue (GatewayHost W)
    ran = run_vm libs crypto codec tools engine principal p w

    abbrev pub recorded : Trace
    recorded = signed_trace libs crypto codec tools engine principal req moment p w

    records-signed :
        length ran.transcript ≡ length ran.host.log
        → map (λ (e : TraceEntry). e.call_record) recorded.entries ≡ ran.transcript
    unfolding sign clear_signature make_trace
    records-signed h = records-zip_entries ran.transcript ran.host.log h

    module _ (q : core.Program) where
      abbrev pub replayed : Run core.LuaValue core.TapeHost
      replayed = replay_run core crypto codec tools recorded q

      replayed-eq :
          length ran.transcript ≡ length ran.host.log
          → replayed
            ≡ core.execute core.tape_host (vm_config engine.vm) q (core.strict_tape ran.transcript)
      unfolding replay_run sign clear_signature make_trace
      replayed-eq h =
          ap
            (λ (rs : List ToolCallRecord).
              core.execute core.tape_host (vm_config engine.vm) q (core.strict_tape rs))
            (records-signed h)

      -- the replayed run ends as the recorded one
      pub record Again : Type 0 where
        end : SameEnd replayed ran
        straight : core.divergence replayed.host ≡ none
        used : core.remaining replayed.host ≡ 0

      pub replayed-Again :
          ReplaysRuns core → Alike core p q → length ran.transcript ≡ length ran.host.log → Again
      unfolding run_vm
      replayed-Again laws alike h =
          let settings = run_settings libs crypto codec tools engine principal in
          let same =
            laws.same (interface libs settings) (vm_config engine.vm) p (new w)
              (interface-Recordable libs settings) in
          let tape = core.strict_tape ran.transcript in
          let ends = alike.end (vm_config engine.vm) tape in
          let hosts = alike.host (vm_config engine.vm) tape in
          record {
            end = record {
              result = rw (replayed-eq h) (sym ends.result ∙ ap (map_err unlined) same.result);
              gas_used = rw (replayed-eq h) (sym ends.gas_used ∙ same.gas_used);
              memory_used = rw (replayed-eq h) (sym ends.memory_used ∙ same.memory_used);
            };
            straight = rw (replayed-eq h) (ap core.divergence (sym hosts) ∙ same.divergence);
            used = rw (replayed-eq h) (ap core.remaining (sym hosts) ∙ same.remaining);
          }

      abbrev pub fresh_report : ReplayReport
      fresh_report = report_of core crypto codec tools moment.trace_id recorded q

      pub replayed-AsRecorded :
          Again
          → AsRecorded
              (outcome core tools replayed recorded.header.vm_config.max_output_bytes 0)
              recorded.footer
      unfolding make_trace sign clear_signature
      replayed-AsRecorded again =
          let same =
            outcome-SameOutcome core tools replayed ran engine.vm.max_output_bytes 0
              (as_u32 (count_char b'\n' described.prelude)) again.end in
          record {
            output = same.output;
            kind = same.kind;
            gas_used = same.gas_used;
            memory_used = same.memory_used;
          }

      pub fresh_report-matched :
          core.program_hash p ≡ core.program_hash q → Again → fresh_report.matched ≡ true
      unfolding make_trace sign clear_signature
      fresh_report-matched hash again =
          (no_mismatch_iff core crypto codec tools recorded
              (crypto.encode_hex (core.program_hash q)) replayed).1
            (ap crypto.encode_hex (sym hash), again.straight, again.used, replayed-AsRecorded again)

      pub replay_with-eq :
          (source : Text) (key : crypto.SigningKey) (g1 g2 : Faults) (fs : Fs)
          → get_trace codec engine.store moment.trace_id g1 fs ≡ ok recorded
          → verify crypto recorded (crypto.verifying_key key) ≡ ok tt
          → get_program codec engine.store recorded.header.program_hash g2 fs ≡ ok source
          → recompile core crypto codec tools source ≡ ok q
          → replay_with core crypto codec tools key engine.store moment.trace_id g1 g2 fs
            ≡ ok fresh_report
      unfolding replay_with
      replay_with-eq source key g1 g2 fs a b c d = ground (arith, a, b, c, d)
