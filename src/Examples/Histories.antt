-- ===== src/Examples/Histories.antt =====
-- A replay after a further request.
use proveno_gateway.Prelude.{codes, ok, refl, sym, ap}
use proveno_gateway.Core.{HashFixesRuns}
use proveno_gateway.Store.{Fs, no_faults}
use proveno_gateway.Engine.{Moment, execute}
use proveno_gateway.Replay.Faithful.{Replays}
use proveno_gateway.Replay.History.{Later, Sources, empty-Sources, execute-Sources, history-Replays}
use proveno_gateway.Examples.World.{
  core, core-ReplaysRuns, crypto, crypto-IsSound, libs, tools, engine, alice, request, moment,
  empty_fs,
}
use proveno_gateway.Examples.Runs.{
  source, codec, left-codec, compiled, executed, response, left_fs, left_world,
}

pub core-HashFixesRuns : HashFixesRuns core
core-HashFixesRuns = record {
  end = λ h config p q s same. record { result = refl; gas_used = refl; memory_used = refl };
  host = λ h config p q s same. refl;
}

-- a second request, after the first
abbrev pub second : Moment
second = record moment { trace_id = codes "0b" }

abbrev pub later_fs : Fs
later_fs = (execute libs crypto codec tools engine alice request second left_fs 5).1

history-Replays_example :
    Replays libs crypto codec tools engine alice request moment response no_faults no_faults
      later_fs
history-Replays_example =
    history-Replays libs crypto codec tools (λ s. refl) engine alice request moment core-ReplaysRuns
      core-HashFixesRuns crypto-IsSound (λ a b h. h) source empty_fs empty_fs left_fs later_fs 0
      left_world response no_faults no_faults refl Later.here compiled executed
      (Later.served engine alice request second 5 Later.here refl) (ap ok (sym left-codec)) refl
      refl

execute-Sources_example :
    Sources libs crypto codec tools
      (λ s. refl)
      engine.store
      (execute libs crypto codec tools engine alice request moment empty_fs 0).1
execute-Sources_example =
    execute-Sources libs crypto codec tools (λ s. refl) engine alice request moment empty_fs 0
      (empty-Sources libs crypto codec tools (λ s. refl) engine.store empty_fs refl)
