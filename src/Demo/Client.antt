-- ===== src/Demo/Client.antt =====
-- demo/client/src/main.rs: a client of the gateway.
pub mod Gateway
use proveno_gateway.Prelude.{
  ℕ, Text, codes, ◌==◌, concat, find, Option, none, some, List, [], ◌∷◌, ◌++◌, Result, ok, err,
  ok_or, ◌>>=◌, map_err, if◌then◌else◌,
}
use proveno_gateway.Json.{Json, Members, string}
use proveno_gateway.Downstream.{CallToolResult, Tool, texts, is_true, or_blank}
use proveno_gateway.Demo.{json_object}

abbrev pub token_var : Text
token_var = codes "DEMO_AGENT_TOKEN"

pub data Command : Type 0 where
  execute_file : (file : Text) (request : Option Text) → Command
  describe : Command

-- What the client uses of rmcp and the system, over the state `W` of the gateway: a connection to a
-- URL with a token, calls over it, the text of a value, and the reading of a file.
pub record Rmcp (W : Type 0) : Type 1 where
  pub Service : Type 0
  pub serve : (url token : Text) → W → Result Service Text × W
  pub call_tool : Service → Text → Option Members → W → Result CallToolResult Text × W
  pub list_all_tools : Service → W → Result (List Tool) Text × W
  pub cancel : Service → W → Result (Unit {0}) Text × W
  pub to_string_pretty : Json → Result Text Text
  pub read_to_string : Text → Result Text Text

abbrev request_field : Option Text → List (Text × Json)
request_field none = []
request_field (some request) = (codes "request", string request) ∷ []

-- the arguments of the call
unfoldable pub arguments : Text → Option Text → Members
arguments program request = json_object ((codes "program", string program) ∷ request_field request)

abbrev value_or : Json → Option Json → Json
value_or v none = v
value_or v (some w) = w

pub no_token : Text
no_token = token_var ++ codes " is not set; it is the gateway bearer token"

pub no_execute : Text
no_execute = codes "the gateway exposes no `execute` tool"

pub unread : Text → Text → Text
unread file e = file ++ codes ": " ++ e

module _ {W : Type 0} (rmcp : Rmcp W) where
  -- `connect`: `var` is the environment
  unfoldable pub connect : (Text → Option Text) → Text → W → Result rmcp.Service Text × W
  connect var url w = elim (var token_var) [
    | none ↦ (err no_token, w)
    | some token ↦ rmcp.serve url token w
  ]

  -- what is printed of a result
  unfoldable pub printed : CallToolResult → Result Text Text
  printed result =
      if is_true result.is_error
      then err (concat (texts result.content))
      else rmcp.to_string_pretty
          (value_or (string (concat (texts result.content))) result.structured_content)

  unfoldable pub execute : rmcp.Service → Text → Option Text → W → Result Text Text × W
  unfolding printed arguments
  execute service program request w =
      let (result, w') =
        rmcp.call_tool service (codes "execute") (some (arguments program request)) w in
      (result >>= printed, w')

  unfoldable pub description : rmcp.Service → W → Result Text Text × W
  description service w =
      let (tools, w') = rmcp.list_all_tools service w in
      (
        tools >>= (λ ts.
            ok_or no_execute (find (λ (t : Tool). t.name == codes "execute") ts) >>= λ t.
            ok (or_blank t.description)),
        w',
      )

  -- the connection is closed after the command, and what closing fails with comes first
  abbrev closed : rmcp.Service → Result Text Text × W → Result Text Text × W
  closed service (result, w) =
      let (done, w') = rmcp.cancel service w in (done >>= (λ _. result), w')

  -- a file that cannot be read ends the program with the connection open
  unfoldable pub run : rmcp.Service → Command → W → Result Text Text × W
  unfolding execute description
  run service (execute_file file request) w = elim (rmcp.read_to_string file) [
    | err e ↦ (err (unread file e), w)
    | ok program ↦ closed service (execute service program request w)
  ]
  run service describe w = closed service (description service w)

  -- `main`, with the text that it prints
  unfoldable pub main : (Text → Option Text) → Text → Command → W → Result Text Text × W
  unfolding connect run
  main var url command w =
      let (connected, w') = connect var url w in
      elim connected [ err e ↦ (err e, w') | ok service ↦ run service command w' ]
