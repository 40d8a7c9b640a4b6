-- ===== src/Main.antt =====
-- src/main.rs: the exit codes of the commands.
pub mod Commands
pub mod Replays
use proveno_gateway.Prelude.{
  Text, decimal, codes, true, Option, none, some, List, [], ◌∷◌, ◌++◌, map, Result, ok, err,
  Bool-cases, if◌then◌else◌, ◌≡◌, ◌↔◌, refl, inl, inr, arith,
}
use proveno_gateway.Dialect.{CompileFault, lint, panic}
use proveno_gateway.Engine.Status.{status_kind}
use proveno_gateway.Replay.{ReplayReport, or_none}
use proveno_gateway.Server.{lint_text}

pub data ExitCode : Type 0 where
  success failure setup_failure : ExitCode

-- What a command prints, and how it exits; or a panic.
pub data Exit : Type 0 where
  exits : (code : ExitCode) (out err_out : List Text) → Exit
  aborts : Text → Exit

pub report_lines : ReplayReport → List Text
report_lines report =
    (codes "replay matched: " ++ report.trace_id)
    ∷ (codes "output: " ++ or_none report.output)
    ∷ (codes "status: " ++ status_kind report.status)
    ∷ (codes "gas_used: " ++ decimal report.gas_used)
    ∷ (codes "memory_used: " ++ decimal report.memory_used)
    ∷ []

abbrev indented : Text → Text
indented m = codes "  " ++ m

-- `replay_command`, from what loading the configuration and replaying came to; the error is its text
unfoldable pub replay_command : Result ReplayReport Text → Exit
replay_command (err e) = exits failure [] ((codes "replay failed: " ++ e) ∷ [])
replay_command (ok report) =
    if report.matched
    then exits success (report_lines report) []
    else exits failure
        ((codes "replay mismatched: " ++ report.trace_id) ∷ map indented report.mismatches) []

-- `run`: a setup failure has an exit code of its own
unfoldable pub run : Result Exit Text → Exit
run (ok e) = e
run (err e) = exits setup_failure [] ((codes "error: " ++ e) ∷ [])

-- the `match` of `check`
unfoldable pub check_command : Result (Unit {0}) CompileFault → Exit
check_command (ok _) = exits success (codes "ok" ∷ []) []
check_command (err (lint e)) = exits failure (lint_text e ∷ []) []
check_command (err (panic m)) = aborts m
