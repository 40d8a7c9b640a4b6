-- ===== src/Examples/Requests.antt =====
-- The theorems on requests, on starting and on compiling, at inputs of this world.
use mathlib.Core.List.{Pairwise, Permᴰ}
use mathlib.Core.List.Memᴰ
use mathlib.Core.HLevel.{¬_prop}
use mathlib.Core.Logic.{∥∥₁_elim}
use proveno_gateway.Prelude.{
  ℕ, ◌+◌, ◌<◌, Text, codes, ◌==◌, has_char, Option, none, some, [], ◌∷◌, All, ok, err, ◌≡◌, ◌≢◌,
  ◌↔◌, ◌⊎◌, Path, refl, arith, count_char, split_whitespace,
}
use proveno_gateway.Prelude.Map.{lookup, insert, contains}
use proveno_gateway.Json
use proveno_gateway.Json.{Json, Members, object}
use proveno_gateway.Core
use proveno_gateway.Core.{Core}
use proveno_gateway.Trace.{signing_key_from_hex}
use proveno_gateway.Downstream.{ToolSchema, CallToolResult, qualified_name}
use proveno_gateway.Downstream.Connect.{Connector, connect}
use proveno_gateway.Dialect.{LintError, lint, compile_program, prelude_source, parse_message}
use proveno_gateway.Dialect.Offsets.{compile_program-lint, RejectedByVerifier, RejectedAt, offset}
use proveno_gateway.Description.{build}
use proveno_gateway.Description.Canonical.{build-perm, prelude_source-build}
use proveno_gateway.Config
use proveno_gateway.Config.{Secret, stdio, DownstreamConfig, PrincipalConfig, GatewayConfig}
use proveno_gateway.Prelude.Sort.{sort_by_key}
use proveno_gateway.Policy.{allowed_tools}
use proveno_gateway.Engine.{allowed_schemas}
use proveno_gateway.Engine.Names.{check_lua_names, Declarable, check_lua_names_iff}
use proveno_gateway.Engine.Start.{new, ShownDeclarable, new-Declarable}
use proveno_gateway.Server.{
  ServerLibrary, ExecuteArgs, Reply, answer, invalid_params, unknown_tool, principal, call_tool,
  arguments, gateway_execute, passed_on, unauthorized, require_bearer,
}
use proveno_gateway.Server.Replies.{NamedBy, require_bearer_lem, call_tool-runs}
use proveno_gateway.Examples.World.{
  core, crypto, libs, tools, engine, alice, moment, empty_fs, read_tool, policy, hello, vm,
}
use proveno_gateway.Examples.Runs.{no_codec}

abbrev who_is : Text → Option Text
who_is token = some alice

abbrev header : Text
header = codes "Bearer t0"

require_bearer_lem_example :
    ((who : Text) × NamedBy who_is (some header) who
      × (require_bearer who_is (λ n. n) (some header) ≡ passed_on who))
    ⊎ ((require_bearer who_is (λ n. n) (some header) ≡ unauthorized)
        × ((who : Text) → ¬ NamedBy who_is (some header) who))
require_bearer_lem_example = require_bearer_lem who_is (λ n. n) (some header)

abbrev args_of_any : ExecuteArgs
args_of_any = record { program = codes "return 1"; session = none; request = none }

abbrev server : ServerLibrary
server = record {
  structured = λ v. hello;
  structured_error = λ v. hello;
  success = λ bs. hello;
  error_result = λ bs. hello;
  execute_args = λ v. ok args_of_any;
  check_args = λ v. ok (record { program = codes "return 1" });
  to_value = λ r. ok Json.null;
}

abbrev refusal : Reply CallToolResult
refusal = answer (err (invalid_params (unknown_tool (codes "run"))))

call_tool-runs_example :
    ((empty_fs ≡ empty_fs) × (Path ℕ 4 4))
    ⊎ (p : Text) × (some alice ≡ some p)
      × (codes "run" ≡ codes "execute")
      × (a : ExecuteArgs) × (server.execute_args (arguments none) ≡ ok a)
      × ((refusal, empty_fs, 4)
          ≡ gateway_execute server libs crypto no_codec tools engine p a moment empty_fs 4)
unfolding call_tool principal codes ◌==◌
call_tool-runs_example =
    call_tool-runs server libs crypto no_codec tools engine moment (some alice) (codes "run") none
      empty_fs empty_fs 4 4 refusal refl

abbrev pub connector : Connector ℕ Unit
connector = record {
  Channel = Unit;
  child = λ program args env w. (ok tt, w);
  http_channel = λ url token. tt;
  serve = λ channel w. (ok tt, w);
  list_all_tools = λ client w. (
    ok (
        record {
          name = codes "read";
          description = some (codes "Reads.");
          input_schema = Json.end;
          output_schema = none;
        }
        ∷ []),
    w,
  );
}

abbrev pub config : GatewayConfig
config = record {
  server = record { listen = []; signing_key = record { reference = codes "env:K" } };
  vm = vm;
  downstream =
      record { name = codes "files"; transport = stdio (codes "files-server"); credential = none }
      ∷ [];
  policy = record { file = codes "p" };
  store = record { dir = codes "/s" };
  principals = (alice, record { token = record { reference = codes "env:A" } }) ∷ [];
}

abbrev pub env : Text → Option Text
env name = some (codes "5e")

pub started :
    (new libs crypto no_codec tools connector env (ok policy) (ok tt) config 0).0 ≡ ok engine
unfolding new Config.resolve signing_key_from_hex connect split_whitespace codes has_char
    allowed_schemas sort_by_key contains allowed_tools lookup ◌==◌ qualified_name check_lua_names
    insert
started = refl

new-Declarable_example : All (ShownDeclarable libs crypto no_codec tools engine) config.principals
new-Declarable_example =
    new-Declarable libs crypto no_codec tools connector env (ok policy) (ok tt) config 0 engine
      started

abbrev decimal_tool : ToolSchema
decimal_tool = record read_tool { server = codes "decimal" }

-- A server with the name of the library `decimal` passes, which `DIALECT_NAMES` does not list.
decimal_passes : check_lua_names decimal_tool ≡ ok tt
unfolding check_lua_names codes contains ◌==◌
decimal_passes = refl

check_lua_names_iff_example : (check_lua_names decimal_tool ≡ ok tt) ↔ Declarable decimal_tool
check_lua_names_iff_example = check_lua_names_iff decimal_tool

abbrev deaf : Core
deaf = record core { parse = λ s. err (Core.other_parse 3 []) }

abbrev complaint : LintError
complaint = record { line = 3; message = parse_message (Core.other_parse 3 []) }

rejected : compile_program deaf [] (codes "x") ≡ err (lint complaint)
unfolding compile_program count_char
rejected = refl

compile_program-lint_example :
    RejectedByVerifier deaf [] (codes "x") complaint
    ⊎ (line : ℕ) × (offset deaf [] (codes "x") < line)
      × (3 + offset deaf [] (codes "x") ≡ line)
      × (RejectedAt deaf [] (codes "x") line)
compile_program-lint_example = compile_program-lint deaf [] (codes "x") complaint rejected

abbrev write_tool : ToolSchema
write_tool = record read_tool { name = codes "write" }

read-ne-write : (b : ToolSchema) → b ≡ write_tool → qualified_name read_tool ≢ qualified_name b
unfolding qualified_name codes
read-ne-write b e q = absurd (ground arith)

distinct :
    Pairwise
      (λ (a b : ToolSchema). qualified_name a ≢ qualified_name b)
      (read_tool ∷ write_tool ∷ [])
distinct =
    Pairwise.cons (λ b m. ∥∥₁_elim m ¬_prop (λ d. read-ne-write b (Memᴰ.eq_of_singleton d)))
      (Pairwise.cons (λ b m. ∥∥₁_elim m ¬_prop (λ d. absurd (Memᴰ.not-nil d))) Pairwise.nil)

build-perm_example :
    build (λ s. []) (read_tool ∷ write_tool ∷ []) ≡ build (λ s. []) (write_tool ∷ read_tool ∷ [])
build-perm_example =
    build-perm (λ s. []) (read_tool ∷ write_tool ∷ []) (write_tool ∷ read_tool ∷ [])
      (Permᴰ.swap refl refl) distinct

prelude_source-build_example :
    prelude_source (build (λ s. []) (read_tool ∷ [])).prelude
    ≡ (build (λ s. []) (read_tool ∷ [])).prelude
prelude_source-build_example = prelude_source-build (λ s. []) (read_tool ∷ [])
