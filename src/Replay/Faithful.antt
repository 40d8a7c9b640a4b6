-- ===== src/Replay/Faithful.antt =====
-- What was executed is replayed.
use proveno_gateway.Prelude.{
  Text, true, ◌++◌, Option, none, some, ok, ◌≡◌, sym, ap, subst, ok-inj, ◌∙◌,
}
use proveno_gateway.Core.{ReplaysRuns}
use proveno_gateway.Trace.{Crypto, sign, clear_signature}
use proveno_gateway.Trace.Signing.{IsSound, verify-sign}
use proveno_gateway.Dialect.{compile_program}
use proveno_gateway.Store.{Codec, Faults, Fs, get_trace, get_program}
use proveno_gateway.Store.Kept.{
  put_description-Keeps, put_trace-Keeps, get_program_later, get_trace-put_trace,
}
use proveno_gateway.Host.{Libraries}
use proveno_gateway.Engine.{
  Tools, Engine, ExecuteRequest, ExecuteResponse, returned, Moment, description_for, run_vm,
  make_trace, execute, parsed,
}
use proveno_gateway.Engine.Status.{status_kind}
use proveno_gateway.Engine.Trail.{Completed, execute-Completed, program_put, description_put}
use proveno_gateway.Replay.{ReplayReport, replay_with, recompile}
use proveno_gateway.Replay.Again.{
  Alike, Alike-refl, described, recompile-source, recorded, replayed-Again, replayed-AsRecorded,
  fresh_report, fresh_report-matched, replay_with-eq,
}

module _ {W : Type 0} (libs : Libraries W) (crypto : Crypto) (codec : Codec) (tools : Tools)
    (engine : Engine libs.rmcp.Client crypto.SigningKey) (principal : Text) (req : ExecuteRequest)
    (moment : Moment) where
  open libs use {core}

  -- The replay of a response's trace: it is made, it matches, and it has the result and the kind of
  -- status that were answered.
  pub record Replays (resp : ExecuteResponse) (g1 g2 : Faults) (fs : Fs) : Type 0 where
    pub report : ReplayReport
    pub replayed :
        replay_with core crypto codec tools engine.signing_key engine.store resp.trace_id g1 g2 fs
        ≡ ok report
    pub matched : report.matched ≡ true
    pub result : resp.result ≡ parsed libs crypto codec tools report.output
    pub kind : status_kind resp.status ≡ status_kind report.status

  -- libs crypto codec tools engine principal req moment run that answered is replayed from any files that give its trace, and a source that compiles
  -- to a program that is alike.
  pub Completed-Replays :
      ReplaysRuns core
      → IsSound crypto
      → {fs fs' : Fs} {w : W} {resp : ExecuteResponse}
        (c : Completed libs crypto codec tools engine principal req moment fs w resp fs')
        (q : core.Program) (source : Text) (g1 g2 : Faults) (later : Fs)
      → Alike core c.program q
      → get_trace codec engine.store moment.trace_id g1 later
        ≡ ok (recorded libs crypto codec tools engine principal req moment c.program w)
      → get_program codec engine.store (crypto.encode_hex (core.program_hash c.program)) g2 later
        ≡ ok source
      → recompile core crypto codec tools source ≡ ok q
      → Replays resp g1 g2 later
  unfolding make_trace sign clear_signature
  Completed-Replays laws sound {fs} {fs'} {w} {resp} c q source g1 g2 later alike trace there
        compiles =
      let again =
        replayed-Again libs crypto codec tools engine principal req moment c.program w q laws alike
          c.logged in
      let same =
        replayed-AsRecorded libs crypto codec tools engine principal req moment c.program w q
          again in
      record {
        report = fresh_report libs crypto codec tools engine principal req moment c.program w q;
        replayed =
            ap
              (λ (r : ExecuteResponse).
                replay_with core crypto codec tools engine.signing_key engine.store r.trace_id g1 g2
                  later)
              c.response
            ∙ replay_with-eq libs crypto codec tools engine principal req moment c.program w q
                source engine.signing_key g1 g2 later trace
                (verify-sign crypto sound
                  (make_trace libs crypto codec tools engine principal req moment c.program
                    (description_for libs crypto codec tools engine principal)
                    (run_vm libs crypto codec tools engine principal c.program w))
                  engine.signing_key)
                there compiles;
        matched =
            fresh_report-matched libs crypto codec tools engine principal req moment c.program w q
              alike.hash again;
        result =
            ap (λ (r : ExecuteResponse). r.result) c.response
            ∙ ap (λ (o : Option Text). parsed libs crypto codec tools o) (sym same.output);
        kind = ap (λ (r : ExecuteResponse). status_kind r.status) c.response ∙ sym same.kind;
      }

  -- What a run that answered has left: its trace and its source, as they were put.
  module _ {fs fs' : Fs} {w : W} {resp : ExecuteResponse}
      (c : Completed libs crypto codec tools engine principal req moment fs w resp fs')
      (g1 g2 : Faults) (readable1 : g1.read ≡ none) (readable2 : g2.read ≡ none) where
    trace-Completed :
        codec.from_slice (
            codec.to_vec (recorded libs crypto codec tools engine principal req moment c.program w))
          ≡ ok (recorded libs crypto codec tools engine principal req moment c.program w)
        → get_trace codec engine.store moment.trace_id g1 fs'
          ≡ ok (recorded libs crypto codec tools engine principal req moment c.program w)
    unfolding sign clear_signature make_trace
    trace-Completed back = rw (c.final) (
        (get_trace-put_trace codec engine.store moment.trace_faults g1
          (description_put libs crypto codec tools engine principal req moment c.program fs).1
          (recorded libs crypto codec tools engine principal req moment c.program w) back c.stored
          readable1).0)

    program-Completed :
        (program_put libs crypto codec tools engine principal req moment c.program fs).0 ≡ ok tt
        → codec.decode (
            codec.encode (
              (described libs crypto codec tools engine principal req moment).prelude
              ++ req.program))
          ≡ some (
              (described libs crypto codec tools engine principal req moment).prelude
              ++ req.program)
        → get_program codec engine.store (crypto.encode_hex (core.program_hash c.program)) g2 fs'
          ≡ ok (
              (described libs crypto codec tools engine principal req moment).prelude
              ++ req.program)
    unfolding sign clear_signature make_trace
    program-Completed put utf8 =
        get_program_later codec engine.store moment.program_faults g2 fs fs'
          (crypto.encode_hex (core.program_hash c.program))
          ((described libs crypto codec tools engine principal req moment).prelude ++ req.program)
          utf8 put
          (λ path old kept there. rw (c.final) (
            put_trace-Keeps codec engine.store moment.trace_faults
              (description_put libs crypto codec tools engine principal req moment c.program fs).1
              (recorded libs crypto codec tools engine principal req moment c.program w) path old
              kept
              (put_description-Keeps codec engine.store moment.description_faults
                (program_put libs crypto codec tools engine principal req moment c.program fs).1
                (crypto.encode_hex
                  (described libs crypto codec tools engine principal req moment).hash)
                (described libs crypto codec tools engine principal req moment).text path old kept
                there)))
          readable2

  -- Whatever `execute` answers with a response, over a deterministic VM, replaying the trace id of
  -- the response from the files that `execute` left gives a report that matches, with the result
  -- and the kind of status that were answered. Conditions: the program compiles to `p`, whose
  -- source the store took without a conflict; the trace and the source are read back as written;
  -- and the system refuses neither read.
  pub execute-Replays :
      (laws : ReplaysRuns core) (sound : IsSound crypto) (p : core.Program) (fs fs' : Fs) (w w' : W)
      (resp : ExecuteResponse) (g1 g2 : Faults)
      → compile_program core
          (described libs crypto codec tools engine principal req moment).prelude
          req.program
        ≡ ok p
      → (program_put libs crypto codec tools engine principal req moment p fs).0 ≡ ok tt
      → codec.from_slice
          (codec.to_vec (recorded libs crypto codec tools engine principal req moment p w))
        ≡ ok (recorded libs crypto codec tools engine principal req moment p w)
      → codec.decode (
          codec.encode (
            (described libs crypto codec tools engine principal req moment).prelude ++ req.program))
        ≡ some
            ((described libs crypto codec tools engine principal req moment).prelude ++ req.program)
      → g1.read ≡ none
      → g2.read ≡ none
      → execute libs crypto codec tools engine principal req moment fs w
        ≡ (returned (ok resp), fs', w')
      → Replays resp g1 g2 fs'
  execute-Replays laws sound p fs fs' w w' resp g1 g2 compiled put back utf8 r1 r2 done =
      let c =
        execute-Completed libs crypto codec tools engine principal req moment fs fs' w w' resp
          done in
      let same = ok-inj (sym compiled ∙ c.compiled) in
      Completed-Replays laws sound c c.program
        ((described libs crypto codec tools engine principal req moment).prelude ++ req.program) g1
        g2 fs' (Alike-refl core c.program)
        (trace-Completed c g1 g2 r1 r2 (
          subst
            (λ (q : core.Program).
              codec.from_slice
                (codec.to_vec (recorded libs crypto codec tools engine principal req moment q w))
              ≡ ok (recorded libs crypto codec tools engine principal req moment q w))
            same back))
        (program-Completed c g1 g2 r1 r2
          (subst
            (λ (q : core.Program).
              (program_put libs crypto codec tools engine principal req moment q fs).0 ≡ ok tt)
            same put)
          utf8)
        (recompile-source libs crypto codec tools engine principal req moment c.program c.compiled)
