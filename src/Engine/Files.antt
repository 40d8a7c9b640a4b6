-- ===== src/Engine/Files.antt =====
-- What `execute` does to the files, whatever it answers.
use proveno_gateway.Prelude.{
  Text, Result, Bool-cases, nat_eq, length, Option-cases, none, ok, err, Result-cases, ◌≡◌, ◌⊎◌,
  inl, inr, arith, refl, subst, sym,
}
use proveno_gateway.Trace.{Crypto}
use proveno_gateway.Dialect.{lint, panic, compile_program}
use proveno_gateway.Store.{StoreError, conflict, Codec, Fs}
use proveno_gateway.Store.Kept.{Keeps, put_program-Keeps, put_description-Keeps, put_trace-Keeps}
use proveno_gateway.Host.{Libraries}
use proveno_gateway.Engine.{
  failure, Tools, Engine, ExecuteRequest, Moment, description_for, run_vm, finish, run_and_store,
  store_description, store_program, execute,
}
use proveno_gateway.Engine.Trail.{program_put, description_put, trace_put}

-- A put that is no failure succeeded, or was in conflict.
pub failure-eq-none :
    (r : Result (Unit {0}) StoreError)
    → failure r ≡ none
    → (r ≡ ok tt) ⊎ ((kind key : Text) × (r ≡ err (conflict kind key)))
unfolding failure
failure-eq-none (ok u) h = inl refl
failure-eq-none (err (conflict kind key)) h = inr (kind, key, refl)
failure-eq-none (err _) h = cc

module _ {W : Type 0} (libs : Libraries W) (crypto : Crypto) (codec : Codec) (tools : Tools)
    (engine : Engine libs.rmcp.Client crypto.SigningKey) (principal : Text) (req : ExecuteRequest)
    (moment : Moment) where
  open libs use {core}

  -- The files are as they were, or as one of the puts left them.
  pub execute-files :
      (fs : Fs) (w : W)
      → ((execute libs crypto codec tools engine principal req moment fs w).1 ≡ fs)
        ⊎ (p : core.Program) × (compile_program core
              (description_for libs crypto codec tools engine principal).prelude
              req.program
            ≡ ok p)
          × (((execute libs crypto codec tools engine principal req moment fs w).1
                ≡ (program_put libs crypto codec tools engine principal req moment p fs).1)
              ⊎ ((execute libs crypto codec tools engine principal req moment fs w).1
                  ≡ (description_put libs crypto codec tools engine principal req moment p fs).1)
              ⊎ ((execute libs crypto codec tools engine principal req moment fs w).1
                  ≡ (trace_put libs crypto codec tools engine principal req moment p fs w).1))
  unfolding execute store_program store_description run_and_store finish
  execute-files fs w =
      elim (Result-cases (
        compile_program core (description_for libs crypto codec tools engine principal).prelude
          req.program)) [
            | inr (lint e, bad) ↦ inl (ground arith)
            | inr (panic m, bad) ↦ inl (ground arith)
            | inl (p, good) ↦
                let run = run_vm libs crypto codec tools engine principal p w in
                inr (
                  p,
                  good,
                  elim (Option-cases (
                      failure
                        (program_put libs crypto codec tools engine principal req moment p fs).0)) [
                          | inr (e, failed) ↦ inl (ground arith)
                          | inl kept ↦
                              elim (Result-cases
                                (description_put libs crypto codec tools engine principal req moment
                                  p fs).0) [
                                    | inr (e, failed) ↦ inr (inl (ground arith))
                                    | inl (u, described) ↦
                                        elim (Bool-cases
                                          (nat_eq (length run.transcript) (length run.host.log))) [
                                            | inr unequal ↦ inr (inl (ground arith))
                                            | inl equal ↦
                                                elim (Result-cases
                                                  (trace_put libs crypto codec tools engine
                                                    principal req moment p fs w).0) [
                                                      | inr (e, failed) ↦ inr (inr (ground arith))
                                                      | inl (v, stored) ↦ inr (inr (ground arith))
                                                    ]
                                          ]
                                  ]
                        ],
                )
          ]

  -- A property of the files that the puts of a program that compiled keep is kept by `execute`.
  pub execute-keeps {ℓ} :
      (P : Fs → Type ℓ) (fs : Fs) (w : W)
      → P fs
      → ((p : core.Program)
          → compile_program core
              (description_for libs crypto codec tools engine principal).prelude
              req.program
            ≡ ok p
          → P (program_put libs crypto codec tools engine principal req moment p fs).1
            × P (description_put libs crypto codec tools engine principal req moment p fs).1
            × P (trace_put libs crypto codec tools engine principal req moment p fs w).1)
      → P (execute libs crypto codec tools engine principal req moment fs w).1
  execute-keeps P fs w now puts = elim (execute-files fs w) [
    | inl same ↦ subst P (sym same) now
    | inr (p, good, inl a) ↦ subst P (sym a) (puts p good).0
    | inr (p, good, inr (inl b)) ↦ subst P (sym b) (puts p good).1
    | inr (p, good, inr (inr c)) ↦ subst P (sym c) (puts p good).2
  ]

  -- Whatever `execute` answers, and even if it panics, every file of the store has the content that
  -- it had.
  pub execute-Keeps :
      (fs : Fs) (w : W)
      → Keeps fs (execute libs crypto codec tools engine principal req moment fs w).1
  execute-Keeps fs w =
      execute-keeps (Keeps fs) fs w (λ path bytes kept there. there)
        (λ p good.
          let described = description_for libs crypto codec tools engine principal in
          let one : Keeps fs
              (program_put libs crypto codec tools engine principal req moment p fs).1 =
            put_program-Keeps codec engine.store moment.program_faults fs _ _ in
          let two : Keeps fs
              (description_put libs crypto codec tools engine principal req moment p fs).1 =
            (λ path bytes kept there.
              put_description-Keeps codec engine.store moment.description_faults
                (program_put libs crypto codec tools engine principal req moment p fs).1 _ _ path
                bytes kept (one path bytes kept there)) in
          (
            one,
            two,
            λ path bytes kept there.
                put_trace-Keeps codec engine.store moment.trace_faults
                  (description_put libs crypto codec tools engine principal req moment p fs).1 _
                  path bytes kept (two path bytes kept there),
          ))
