-- ===== src/Engine/Permits.antt =====
-- What a request can do to the servers behind the gateway.
use proveno_gateway.Prelude.{
  Text, Bool-cases, nat_eq, length, Option-cases, Result-cases, ◌≡◌, ◌⊎◌, inl, inr, arith, subst,
  sym,
}
use proveno_gateway.Core.{RecordsCalls}
use proveno_gateway.Trace.{Crypto}
use proveno_gateway.Dialect.{lint, panic, compile_program}
use proveno_gateway.Config.{vm_config}
use proveno_gateway.Store.{Codec, Fs}
use proveno_gateway.Host.{Libraries, new, interface}
use proveno_gateway.Host.Permits.{Permits, run-Permits}
use proveno_gateway.Engine.{
  failure, Tools, Engine, ExecuteRequest, Moment, description_for, run_vm, run_settings,
  run_and_store, store_description, store_program, execute,
}
use proveno_gateway.Engine.Trail.{program_put, description_put}

module _ {W : Type 0} (libs : Libraries W) (crypto : Crypto) (codec : Codec) (tools : Tools)
    (engine : Engine libs.rmcp.Client crypto.SigningKey) (principal : Text) (req : ExecuteRequest)
    (moment : Moment) where
  open libs use {core}

  run_vm-Permits :
      (records : RecordsCalls core) (p : core.Program) (w : W)
      → Permits libs
          (run_settings libs crypto codec tools engine principal)
          w
          (run_vm libs crypto codec tools engine principal p w).host.world
  unfolding run_vm new
  run_vm-Permits records p w =
      let settings = run_settings libs crypto codec tools engine principal in
      run-Permits libs settings
        (records.calls (interface libs settings) (vm_config engine.vm) p (new w))

  -- The servers are as they were, or as a run of the program left them.
  execute-world :
      (fs : Fs) (w : W)
      → ((execute libs crypto codec tools engine principal req moment fs w).2 ≡ w)
        ⊎ (p : core.Program) × ((execute libs crypto codec tools engine principal req moment fs w).2
            ≡ (run_vm libs crypto codec tools engine principal p w).host.world)
  unfolding execute store_program store_description run_and_store
  execute-world fs w =
      elim (Result-cases (
        compile_program core (description_for libs crypto codec tools engine principal).prelude
          req.program)) [
            | inr (lint e, bad) ↦ inl (ground arith)
            | inr (panic m, bad) ↦ inl (ground arith)
            | inl (p, good) ↦
                let run = run_vm libs crypto codec tools engine principal p w in
                elim (Option-cases (
                  failure
                    (program_put libs crypto codec tools engine principal req moment p fs).0)) [
                      | inr (e, failed) ↦ inl (ground arith)
                      | inl kept ↦
                          elim (Result-cases
                            (description_put libs crypto codec tools engine principal req moment p
                              fs).0) [
                                | inr (e, failed) ↦ inl (ground arith)
                                | inl (u, described) ↦
                                    elim (Bool-cases
                                      (nat_eq (length run.transcript) (length run.host.log))) [
                                        | inr unequal ↦ inr (p, ground arith)
                                        | inl equal ↦ inr (p, ground arith)
                                      ]
                              ]
                    ]
          ]

  -- Whatever program is submitted and whatever comes of it, `execute` changes the servers behind the
  -- gateway only by calls of tools that are shown to the principal, with arguments that fit the
  -- schema and that the policy permits the principal, if the VM records its calls.
  pub execute-Permits :
      (records : RecordsCalls core) (fs : Fs) (w : W)
      → Permits libs
          (run_settings libs crypto codec tools engine principal)
          w
          (execute libs crypto codec tools engine principal req moment fs w).2
  execute-Permits records fs w = elim (execute-world fs w) [
    | inl same ↦
        subst (Permits libs (run_settings libs crypto codec tools engine principal) w) (sym same)
          Permits.idle
    | inr (p, ran) ↦
        subst (Permits libs (run_settings libs crypto codec tools engine principal) w) (sym ran)
          (run_vm-Permits records p w)
  ]
