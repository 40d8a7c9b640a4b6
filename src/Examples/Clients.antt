-- ===== src/Examples/Clients.antt =====
-- The market, and the client of the gateway.
use proveno_gateway.Prelude.{
  ◌>>=◌, if◌then◌else◌, Bool, all, ℕ, Text, codes, true, false, Option, none, some, List, [], ◌∷◌,
  ◌++◌, Result, ok, err, ◌≡◌, ◌⊎◌, ◌↔◌, inl, arith,
}
use proveno_gateway.Prelude.Map.{lookup, contains}
use proveno_gateway.Json
use proveno_gateway.Json.{Json, Members, members, member, object, string}
use proveno_gateway.Trace.{error}
use proveno_gateway.Downstream.{CallToolResult, text}
use proveno_gateway.Engine.{ExecuteResponse}
use proveno_gateway.Server.{ServerLibrary, ExecuteArgs, answer, passed_on, call_tool, failure_text}
use proveno_gateway.Demo.Market.{serve, get_price, unknown_pair}
use proveno_gateway.Demo.Market.Quotes.{serve_iff, Quoted, Settable, get_price-Quoted}
use proveno_gateway.Demo.Client.{Rmcp}
use proveno_gateway.Examples.Servers.{lib, result_of}

serve_iff_example :
    (serve {R = ℕ} (some (codes "key")) 5 (some (codes "Bearer key")) ≡ passed_on 5) ↔ (
      (some (codes "key") ≡ none)
      ⊎ ((expected : Text) × (some (codes "key") ≡ some expected)
          × (some (codes "Bearer key") ≡ some (codes "Bearer " ++ expected))))
serve_iff_example = serve_iff {R = ℕ} (some (codes "key")) 5 (some (codes "Bearer key"))

abbrev quote : Members
quote = member (codes "price") (string (codes "2.5")) Json.end

abbrev prices : List (Text × Json)
prices = (codes "ETH/USD", object quote) ∷ []

prices-Settable : (pair : Text) (q : Json) → lookup pair prices ≡ some q → Settable q
unfolding lookup
prices-Settable pair q h = inl (quote, ground arith)

get_price-Quoted_example :
    ((lookup (codes "ETH/USD") prices ≡ none)
      × (get_price lib prices (codes "ETH/USD")
          ≡ answer (ok (lib.error (text (unknown_pair (codes "ETH/USD")) ∷ [])))))
    ⊎ ((q : Json) × (response : Members) × (lookup (codes "ETH/USD") prices ≡ some q)
        × Quoted (codes "ETH/USD") q response
        × (get_price lib prices (codes "ETH/USD") ≡ answer (ok (lib.structured (object response)))))
get_price-Quoted_example = get_price-Quoted lib prices prices-Settable (codes "ETH/USD")

-- an optional text may be absent or null
abbrev optional : Option Json → Result (Option Text) Text
optional none = ok none
optional (some Json.null) = ok none
optional (some (string s)) = ok (some s)
optional (some _) = err (codes "not a text")

abbrev args_of : Option Json → Option Json → Option Json → Result ExecuteArgs Text
args_of (some (string program)) session request = do
  s ← optional session
  r ← optional request
  ok (record { program = program; session = s; request = r })
args_of _ session request = err (codes "no program")

abbrev is_field : Text × Json → Bool
is_field f = contains f.0 (codes "program" ∷ codes "session" ∷ codes "request" ∷ [])

-- a field that is not of `ExecuteArgs` is denied
abbrev read_args : Json → Result ExecuteArgs Text
read_args (object ms) =
    if all is_field (members ms)
    then args_of (Json.get (codes "program") (object ms)) (Json.get (codes "session") (object ms))
        (Json.get (codes "request") (object ms))
    else err (codes "unknown field")
read_args _ = err (codes "not an object")

abbrev pub server : ServerLibrary
server = record {
  structured = λ v. result_of (some v) false [];
  structured_error = λ v. result_of (some v) true [];
  success = result_of none false;
  error_result = result_of none true;
  execute_args = read_args;
  check_args = λ v. err [];
  to_value = λ r. ok (string r.trace_id);
}

abbrev program : Text
program = codes "return 1"

abbrev failure : ExecuteResponse
failure = record {
  result = none;
  trace_id = codes "t1";
  status = error (codes "ToolError") (codes "no");
}

abbrev reply : CallToolResult
reply = record (server.structured_error (string (codes "t1"))) {
  content = text (failure_text (codes "ToolError") (codes "no") (codes "t1")) ∷ [];
}

abbrev offline : Rmcp ℕ
offline = record {
  Service = Unit;
  serve = λ url token w. (ok tt, w);
  call_tool = λ service name args w. (ok reply, w);
  list_all_tools = λ service w. (ok [], w);
  cancel = λ service w. (ok tt, w);
  to_string_pretty = λ v. ok (codes "\"t1\"");
  read_to_string = λ file. ok program;
}
