-- ===== src/Server.antt =====
-- src/server.rs: the server that the agent talks to.
mod Bearer
mod Schemas
pub mod Digests
pub mod Tokens
pub mod Replies
pub mod Start
pub mod Requests
unfoldable pub use Bearer.*
pub use Schemas.*
use proveno_gateway.Prelude.{
  ℕ, leb, ◌+◌, Text, decimal, codes, ◌==◌, split_once, Bool, true, false, ◌&&◌, Option, none, some,
  List, [], ◌∷◌, ◌++◌, map, Result, ok, err, ◌>>=◌, map_err, if◌then◌else◌,
}
use proveno_gateway.Json
use proveno_gateway.Json.{
  Json, Members, Items, nil, item, object, string, boolean, array, from_members,
}
use proveno_gateway.Trace.{RunStatus, finished, error, Crypto}
use proveno_gateway.Downstream.{CallToolResult, ContentBlock, sorted_fields}
use proveno_gateway.Downstream
use proveno_gateway.Dialect.{LintError, lint, panic, CompileFault}
use proveno_gateway.Description.{lua_guide}
use proveno_gateway.Store.{StoreError, Codec, Fs}
use proveno_gateway.Host.{Libraries}
use proveno_gateway.Engine.{
  Tools, Engine, ExecuteRequest, ExecuteResponse, ExecuteError, Executed, returned, panicked,
  Moment, lint_failed, store_failed, description_for, execute, check,
}

abbrev pub lua_guide_uri : Text
lua_guide_uri = codes "proveno://lua-guide"

abbrev pub lua_guide_name : Text
lua_guide_name = codes "lua-guide"

check_description : Text
check_description =
    codes "Lint a Lua program against the dialect and your tool API without running it. Returns "
    ++ codes "`ok`, or `line N: message` as an error result."

-- What the server answers besides a result: `rmcp::ErrorData` by the constructor used.
pub data ErrorData : Type 0 where
  internal_error : Text → ErrorData
  invalid_params : Text → ErrorData
  resource_not_found : Text → ErrorData

-- Handlers answer, or panic.
pub data Reply (A : Type 0) : Type 0 where
  answer : Result A ErrorData → Reply A
  aborted : Text → Reply A

pub record ExecuteArgs : Type 0 where
  pub program : Text
  pub session : Option Text
  pub request : Option Text

pub record CheckArgs : Type 0 where
  pub program : Text

-- What the server uses of rmcp and serde: the constructors of `CallToolResult`, the derived
-- readers of the arguments, and `to_value` of a response.
pub record ServerLibrary : Type 0 where
  pub structured : Json → CallToolResult
  pub structured_error : Json → CallToolResult
  pub success : List ContentBlock → CallToolResult
  pub error_result : List ContentBlock → CallToolResult
  pub execute_args : Json → Result ExecuteArgs Text
  pub check_args : Json → Result CheckArgs Text
  pub to_value : ExecuteResponse → Result Json Text

-- `lint.to_string()`
pub lint_text : LintError → Text
lint_text e = codes "line " ++ decimal e.line ++ codes ": " ++ e.message

pub failure_text : Text → Text → Text → Text
failure_text kind message trace_id =
    kind
    ++ codes ": "
    ++ message
    ++ codes "\nThe run is recorded as trace "
    ++ trace_id
    ++ codes
        ", and any tool calls it made before failing have already happened, so check them before running it again."

pub not_stored : Text
not_stored = codes "the trace could not be stored; the program's tool calls may have been made"

pub invalid_arguments : Text → Text → Text
invalid_arguments name e = name ++ codes ": invalid arguments: " ++ e

pub unknown_tool : Text → Text
unknown_tool name = codes "unknown tool `" ++ name ++ codes "`"

pub unknown_resource : Text → Text
unknown_resource uri = codes "unknown resource `" ++ uri ++ codes "`"

pub unknown_prompt : Text → Text
unknown_prompt name = codes "unknown prompt `" ++ name ++ codes "`"

no_principal : Text
no_principal = codes "request has no authenticated principal"

-- `principal(&context)`: what `require_bearer` left with the request
unfoldable pub principal : Option Text → Result Text ErrorData
unfolding no_principal
principal none = err (internal_error no_principal)
principal (some name) = ok name

abbrev pub arguments : Option Members → Json
arguments none = object Json.end
arguments (some ms) = object ms

module _ (lib : ServerLibrary) where
  -- the `match &response.status`
  abbrev respond : Json → ExecuteResponse → RunStatus → CallToolResult
  respond value response finished = lib.structured value
  respond value response (error kind message) = record (lib.structured_error value) {
    content = Downstream.text (failure_text kind message response.trace_id) ∷ [];
  }

  -- the `match` of `Gateway::execute`
  unfoldable pub reply_to : Executed → Reply CallToolResult
  reply_to (panicked m) = aborted m
  reply_to (returned (ok response)) = elim (lib.to_value response) [
    | err e ↦ answer (err (internal_error e))
    | ok value ↦ answer (ok (respond value response response.status))
  ]
  reply_to (returned (err (lint_failed e))) =
      answer (ok (lib.error_result (Downstream.text (lint_text e) ∷ [])))
  reply_to (returned (err (store_failed e))) = answer (err (internal_error not_stored))

  unfoldable pub reply_to_check : Result (Unit {0}) CompileFault → Reply CallToolResult
  reply_to_check (ok _) = answer (ok (lib.success (Downstream.text (codes "ok") ∷ [])))
  reply_to_check (err (lint e)) =
      answer (ok (lib.error_result (Downstream.text (lint_text e) ∷ [])))
  reply_to_check (err (panic m)) = aborted m

  module _ {W : Type 0} (libs : Libraries W) (crypto : Crypto) (codec : Codec) (tools : Tools) where
    open libs use {rmcp}

    unfoldable pub gateway_execute :
        Engine rmcp.Client crypto.SigningKey
        → Text
        → ExecuteArgs
        → Moment
        → Fs
        → W
        → Reply CallToolResult × Fs × W
    unfolding reply_to
    gateway_execute engine name args moment fs w =
        let request : ExecuteRequest = record {
          program = args.program;
          session = args.session;
          request = args.request;
        } in
        let (done, fs', w') = execute libs crypto codec tools engine name request moment fs w in
        (reply_to done, fs', w')

    -- the `match` on the name of the tool
    unfoldable pub call_named :
        Engine rmcp.Client crypto.SigningKey
        → Text
        → Text
        → Json
        → Moment
        → Fs
        → W
        → Reply CallToolResult × Fs × W
    unfolding gateway_execute reply_to_check
    call_named engine who name args moment fs w =
        if name == codes "execute"
        then elim (lib.execute_args args) [
          | err e ↦ (answer (err (invalid_params (invalid_arguments name e))), fs, w)
          | ok a ↦ gateway_execute engine who a moment fs w
        ]
        else if name == codes "check"
        then elim (lib.check_args args) [
          | err e ↦ (answer (err (invalid_params (invalid_arguments name e))), fs, w)
          | ok a ↦ (reply_to_check (check libs crypto codec tools engine who a.program), fs, w)
        ]
        else (answer (err (invalid_params (unknown_tool name))), fs, w)

    unfoldable pub call_tool :
        Engine rmcp.Client crypto.SigningKey
        → Option Text
        → Text
        → Option Members
        → Moment
        → Fs
        → W
        → Reply CallToolResult × Fs × W
    unfolding call_named
    call_tool engine who name args moment fs w = elim (principal who) [
      | err e ↦ (answer (err e), fs, w)
      | ok p ↦ call_named engine p name (arguments args) moment fs w
    ]

    pub record ListedTool : Type 0 where
      pub name : Text
      pub description : Text
      pub input_schema : Members

    pub list_tools :
        Engine rmcp.Client crypto.SigningKey → Option Text → Result (List ListedTool) ErrorData
    list_tools engine who = do
      p ← principal who
      ok (
          record {
            name = codes "execute";
            description = (description_for libs crypto codec tools engine p).text;
            input_schema = execute_schema;
          }
          ∷ record {
            name = codes "check";
            description = check_description;
            input_schema = check_schema;
          }
          ∷ [])

-- The guide, as a resource and as a prompt.
unfoldable pub read_resource : Text → Result Text ErrorData
read_resource uri =
    if uri == lua_guide_uri then ok lua_guide else err (resource_not_found (unknown_resource uri))

unfoldable pub get_prompt : Text → Result Text ErrorData
get_prompt name =
    if name == lua_guide_name then ok lua_guide else err (invalid_params (unknown_prompt name))

abbrev pub list_resources : List (Text × Text)
list_resources = (lua_guide_uri, lua_guide_name) ∷ []

abbrev pub list_prompts : List Text
list_prompts = lua_guide_name ∷ []
