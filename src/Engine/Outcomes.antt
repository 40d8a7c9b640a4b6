-- ===== src/Engine/Outcomes.antt =====
-- src/engine.rs: what a run comes to.
use proveno_gateway.Prelude.{
  ℕ, ◌-◌, ltb, Text, decimal, codes, Option, none, some, List, ◌++◌, length, Result, ok, err, ◌>>=◌,
  if◌then◌else◌,
}
use proveno_gateway.Json.{Json}
use proveno_gateway.Core.{
  Core, VmError, with_line, gas_exhausted, memory_exhausted, call_depth_exceeded, type_error,
  runtime_error, tool_error, output_exceeded, Run,
}
use proveno_gateway.Trace.{RunStatus, finished, error}
use proveno_gateway.Policy.{Policy}

-- What else the engine uses of the libraries: digests of a text and of a policy, hex, UTF-8, JSON
-- text, and `{:?}` of what has no text.
pub record Tools : Type 0 where
  pub digest : Text → List ℕ
  pub policy_bytes : Policy → List ℕ
  pub sha256 : List ℕ → List ℕ
  pub from_utf8 : List ℕ → Text
  pub lossy : List ℕ → Text
  pub from_str : Text → Json

module _ (core : Core) (tools : Tools) where
  open core use {LuaValue}

  pub lua_message : LuaValue → Text
  lua_message value = elim (core.as_string value) [
    | some s ↦ s
    | none ↦ elim (core.canonical_serialize value) [
      | ok bytes ↦ tools.lossy bytes
      | err e ↦ core.debug_value value
    ]
  ]

  abbrev plus_line : ℕ → ℕ → Text → Text
  plus_line line prelude_lines message =
      if ltb prelude_lines line
      then codes "line " ++ decimal (line - prelude_lines) ++ codes ": " ++ message
      else message

  abbrev pub at_line : ℕ → ℕ → RunStatus → RunStatus
  at_line line prelude_lines finished = finished
  at_line line prelude_lines (error kind message) =
      error kind (plus_line line prelude_lines message)

  unfoldable pub error_status : VmError LuaValue → ℕ → RunStatus
  error_status (with_line line inner) prelude_lines =
      at_line line prelude_lines (error_status inner prelude_lines)
  error_status gas_exhausted prelude_lines = error (codes "GasExhausted") (codes "gas exhausted")
  error_status memory_exhausted prelude_lines =
      error (codes "MemoryExhausted") (codes "memory exhausted")
  error_status call_depth_exceeded prelude_lines =
      error (codes "CallDepthExceeded") (codes "call depth exceeded")
  error_status (type_error m) prelude_lines = error (codes "TypeError") m
  error_status (runtime_error value) prelude_lines =
      error (codes "RuntimeError") (lua_message value)
  error_status (tool_error m) prelude_lines = error (codes "ToolError") m
  error_status output_exceeded prelude_lines =
      error (codes "OutputExceeded") (codes "output exceeded")

  unfoldable pub output_json : LuaValue → ℕ → Result Text (VmError LuaValue)
  output_json value max_output_bytes = do
    bytes ← core.canonical_serialize value
    if ltb max_output_bytes (length bytes) then err output_exceeded else ok (tools.from_utf8 bytes)

  -- The footer's fields, from a run of the VM; the engine and the replay make them alike.
  pub record Outcome : Type 0 where
    pub output : Option Text
    pub status : RunStatus
    pub gas_used : ℕ
    pub memory_used : ℕ

  unfoldable pub outcome : {S : Type 0} → Run LuaValue S → ℕ → ℕ → Outcome
  unfolding output_json error_status
  outcome run max_output_bytes prelude_lines = elim run.result [
    | ok out ↦ elim (output_json out.return_value max_output_bytes) [
      | ok json ↦ record {
        output = some json;
        status = finished;
        gas_used = out.gas_used;
        memory_used = out.memory_used;
      }
      | err e ↦ record {
        output = none;
        status = error_status e prelude_lines;
        gas_used = out.gas_used;
        memory_used = out.memory_used;
      }
    ]
    | err e ↦ record {
      output = none;
      status = error_status e prelude_lines;
      gas_used = run.gas_used;
      memory_used = run.memory_used;
    }
  ]
