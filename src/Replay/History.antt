-- ===== src/Replay/History.antt =====
-- Histories of one store: whatever was executed before and after, a stored run can be replayed.
use proveno_gateway.Prelude.{
  ℕ, Text, none, some, List, [], ◌++◌, ok, ◌≡◌, refl, sym, ap, subst, ok-inj, ◌∙◌, arith,
}
use proveno_gateway.Prelude.Map.{lookup}
use proveno_gateway.Core.{ReplaysRuns, HashFixesRuns}
use proveno_gateway.Trace.{Crypto, sign, clear_signature}
use proveno_gateway.Trace.Signing.{IsSound}
use proveno_gateway.Dialect.{compile_program}
use proveno_gateway.Store.{TraceStore, Codec, Faults, Fs, get_trace}
use proveno_gateway.Store.Kept.{Keeps, put_trace-Keeps, put_description-Keeps}
use proveno_gateway.Store.Later.{get_trace_later, program_file-there, get_program-there}
use proveno_gateway.Store.Programs.{
  AllPrograms, put_program-AllPrograms, put_description-AllPrograms, put_trace-AllPrograms,
}
use proveno_gateway.Host.{Libraries}
use proveno_gateway.Engine.{
  Tools, Engine, ExecuteRequest, ExecuteResponse, Executed, Moment, returned, make_trace, execute,
  description_for,
}
use proveno_gateway.Engine.Trail.{
  Completed, execute-Completed, program_put, description_put, trace_put,
}
use proveno_gateway.Engine.Files.{failure-eq-none, execute-keeps, execute-Keeps}
use proveno_gateway.Replay.{recompile}
use proveno_gateway.Replay.Again.{HashFixesRuns-Alike, described, recompile-source, recorded}
use proveno_gateway.Replay.Faithful.{Replays, Completed-Replays}

module _ {W : Type 0} (libs : Libraries W) (crypto : Crypto) (codec : Codec) (tools : Tools)
    (utf8 : (s : Text) → codec.decode (codec.encode s) ≡ some s) where
  open libs use {core, rmcp}

  -- The bytes are a source, which compiles to a program with this hash.
  abbrev pub Compiles : Text → List ℕ → Type 0
  Compiles hash bytes =
      (source : Text) × (p : core.Program) × (codec.decode bytes ≡ some source)
      × (recompile core crypto codec tools source ≡ ok p)
      × (crypto.encode_hex (core.program_hash p) ≡ hash)

  abbrev pub Sources : TraceStore → Fs → Type 0
  Sources store fs = AllPrograms Compiles store fs

  -- If every stored source compiles on its own to a program with the hash that it is stored under, it
  -- is so after `execute`, whatever that answers and whatever the system refuses it, if texts are
  -- read back from their bytes.
  pub execute-Sources :
      (engine : Engine rmcp.Client crypto.SigningKey) (principal : Text) (req : ExecuteRequest)
      (moment : Moment) (fs : Fs) (w : W)
      → Sources engine.store fs
      → Sources engine.store (execute libs crypto codec tools engine principal req moment fs w).1
  execute-Sources engine principal req moment fs w all =
      execute-keeps libs crypto codec tools engine principal req moment (Sources engine.store) fs w
        all
        (λ p good.
          let prelude = (description_for libs crypto codec tools engine principal).prelude in
          let one : Sources engine.store
              (program_put libs crypto codec tools engine principal req moment p fs).1 =
            put_program-AllPrograms codec engine.store moment.program_faults fs Compiles all
              (crypto.encode_hex (core.program_hash p)) (prelude ++ req.program)
              (
                prelude ++ req.program,
                p,
                utf8 (prelude ++ req.program),
                recompile-source libs crypto codec tools engine principal req moment p good,
                refl,
              ) in
          let two : Sources engine.store
              (description_put libs crypto codec tools engine principal req moment p fs).1 =
            put_description-AllPrograms codec engine.store moment.description_faults
              (program_put libs crypto codec tools engine principal req moment p fs).1 Compiles one
              _ _ in
          (
            one,
            two,
            put_trace-AllPrograms codec engine.store moment.trace_faults
                (description_put libs crypto codec tools engine principal req moment p fs).1
                Compiles two _,
          ))

  -- What a store may have become: requests were served over it, of any principals, by engines with
  -- any policy, tools, limits and key, and anything happened to the servers in between.
  pub data Later (store : TraceStore) : Fs → Fs → Type 0 where
    here : {fs : Fs} → Later store fs fs
    served :
        {fs mid : Fs} (engine : Engine rmcp.Client crypto.SigningKey) (principal : Text)
        (req : ExecuteRequest) (moment : Moment) (w : W)
        → Later store fs mid
        → engine.store ≡ store
        → Later store fs (execute libs crypto codec tools engine principal req moment mid w).1

  pub Later-Keeps : {store : TraceStore} {a b : Fs} → Later store a b → Keeps a b
  Later-Keeps here path bytes kept there = there
  Later-Keeps (served {mid = mid} engine principal req moment w before same) path bytes kept there =
      execute-Keeps libs crypto codec tools engine principal req moment mid w path bytes kept
        (Later-Keeps before path bytes kept there)

  pub Later-Sources :
      {store : TraceStore} {a b : Fs} → Later store a b → Sources store a → Sources store b
  Later-Sources here all = all
  Later-Sources (served {mid = mid} engine principal req moment w before same) all =
      subst
        (λ (s : TraceStore).
          Sources s (execute libs crypto codec tools engine principal req moment mid w).1)
        same
        (execute-Sources engine principal req moment mid w
          (subst (λ (s : TraceStore). Sources s mid) (sym same) (Later-Sources before all)))

  pub empty-Sources : (store : TraceStore) (fs : Fs) → fs.files ≡ [] → Sources store fs
  unfolding lookup
  empty-Sources store fs empty hash path bytes good there = absurd (ground (arith, empty))

  module _ (engine : Engine rmcp.Client crypto.SigningKey) (principal : Text) (req : ExecuteRequest)
      (moment : Moment) where
    trace-later :
        (p : core.Program) (fs later : Fs) (w : W) (g : Faults)
        → codec.from_slice
            (codec.to_vec (recorded libs crypto codec tools engine principal req moment p w))
          ≡ ok (recorded libs crypto codec tools engine principal req moment p w)
        → (trace_put libs crypto codec tools engine principal req moment p fs w).0 ≡ ok tt
        → Keeps (trace_put libs crypto codec tools engine principal req moment p fs w).1 later
        → g.read ≡ none
        → get_trace codec engine.store moment.trace_id g later
          ≡ ok (recorded libs crypto codec tools engine principal req moment p w)
    unfolding sign clear_signature make_trace
    trace-later p fs later w g back stored keeps readable =
        get_trace_later codec engine.store moment.trace_faults g
          (description_put libs crypto codec tools engine principal req moment p fs).1 later
          (recorded libs crypto codec tools engine principal req moment p w) back stored keeps
          readable

    after_put-Keeps :
        (p : core.Program) (fs : Fs) (w : W)
        → Keeps
            (program_put libs crypto codec tools engine principal req moment p fs).1
            (trace_put libs crypto codec tools engine principal req moment p fs w).1
    after_put-Keeps p fs w path bytes kept there =
        put_trace-Keeps codec engine.store moment.trace_faults
          (description_put libs crypto codec tools engine principal req moment p fs).1
          (recorded libs crypto codec tools engine principal req moment p w) path bytes kept
          (put_description-Keeps codec engine.store moment.description_faults
            (program_put libs crypto codec tools engine principal req moment p fs).1 _ _ path bytes
            kept there)

    Completed-later :
        (laws : ReplaysRuns core) (fixes : HashFixesRuns core) (sound : IsSound crypto)
        (hex : (a b : List ℕ) → crypto.encode_hex a ≡ crypto.encode_hex b → a ≡ b)
        {fs fs' later : Fs} {w : W} {resp : ExecuteResponse}
        (c : Completed libs crypto codec tools engine principal req moment fs w resp fs')
        (g1 g2 : Faults)
        → Keeps
            (trace_put libs crypto codec tools engine principal req moment c.program fs w).1
            later
        → Sources engine.store later
        → codec.from_slice (
            codec.to_vec (recorded libs crypto codec tools engine principal req moment c.program w))
          ≡ ok (recorded libs crypto codec tools engine principal req moment c.program w)
        → g1.read ≡ none
        → g2.read ≡ none
        → Replays libs crypto codec tools engine principal req moment resp g1 g2 later
    Completed-later laws fixes sound hex {fs} {fs'} {later} {w} {resp} c g1 g2 keeps all back r1
          r2 =
        let (path, bytes, good, there) =
          program_file-there codec engine.store moment.program_faults fs later
            (crypto.encode_hex (core.program_hash c.program))
            ((described libs crypto codec tools engine principal req moment).prelude ++ req.program)
            (failure-eq-none
              (program_put libs crypto codec tools engine principal req moment c.program fs).0
              c.kept)
            (λ p b kept was. keeps p b kept (after_put-Keeps c.program fs w p b kept was)) in
        let (source, q, decoded, compiles, named) =
          all (crypto.encode_hex (core.program_hash c.program)) path bytes good there in
        Completed-Replays libs crypto codec tools engine principal req moment laws sound c q source
          g1 g2 later
          (HashFixesRuns-Alike core c.program q fixes
            (hex (core.program_hash c.program) (core.program_hash q) (sym named)))
          (trace-later c.program fs later w g1 back c.stored keeps r1)
          (get_program-there codec engine.store g2 later
            (crypto.encode_hex (core.program_hash c.program)) path bytes source good there decoded
            r2)
          compiles

    -- Whatever was executed over a store that was made empty, by whom and with what policy, tools and
    -- limits, and whatever the system refused: once `execute` has answered with a response, replaying the
    -- trace id of that response gives a report that matches, with the result and the kind of status
    -- that were answered, then and after any further requests. Conditions: the VM is deterministic,
    -- and programs of one hash run alike; signatures are sound; texts are read back from their bytes
    -- and the trace from its; hex tells hashes apart; the program compiles to `p`; and the two reads
    -- are not refused.
    pub history-Replays :
        (laws : ReplaysRuns core) (fixes : HashFixesRuns core) (sound : IsSound crypto)
        (hex : (a b : List ℕ) → crypto.encode_hex a ≡ crypto.encode_hex b → a ≡ b)
        (p : core.Program) (empty fs fs' later : Fs) (w w' : W) (resp : ExecuteResponse)
        (g1 g2 : Faults)
        → empty.files ≡ []
        → Later engine.store empty fs
        → compile_program core
            (description_for libs crypto codec tools engine principal).prelude
            req.program
          ≡ ok p
        → execute libs crypto codec tools engine principal req moment fs w
          ≡ (returned (ok resp), fs', w')
        → Later engine.store fs' later
        → codec.from_slice
            (codec.to_vec (recorded libs crypto codec tools engine principal req moment p w))
          ≡ ok (recorded libs crypto codec tools engine principal req moment p w)
        → g1.read ≡ none
        → g2.read ≡ none
        → Replays libs crypto codec tools engine principal req moment resp g1 g2 later
    history-Replays laws fixes sound hex p empty fs fs' later w w' resp g1 g2 none_yet before
          compiled done after back r1 r2 =
        let c =
          execute-Completed libs crypto codec tools engine principal req moment fs fs' w w' resp
            done in
        let all : Sources engine.store fs' =
          subst (Sources engine.store) (ap (λ (r : Executed × Fs × W). r.1) done) (
            execute-Sources engine principal req moment fs w
              (Later-Sources before (empty-Sources engine.store empty none_yet))) in
        let keeps : Keeps fs' later = Later-Keeps after in
        Completed-later laws fixes sound hex c g1 g2
          (subst (λ (f : Fs). Keeps f later) c.final keeps) (Later-Sources after all)
          (subst
            (λ (q : core.Program).
              codec.from_slice
                (codec.to_vec (recorded libs crypto codec tools engine principal req moment q w))
              ≡ ok (recorded libs crypto codec tools engine principal req moment q w))
            (ok-inj (sym compiled ∙ c.compiled)) back)
          r1 r2
