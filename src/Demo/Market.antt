-- ===== src/Demo/Market.antt =====
-- demo/market/src/main.rs: prices from a file, behind a bearer token.
pub mod Quotes
use proveno_gateway.Prelude.{
  ℕ, Text, codes, ◌==◌, strip_prefix, Option, none, some, List, [], ◌∷◌, ◌++◌, Result, ok, err,
  map_err, ◌>>=◌, if◌then◌else◌,
}
use proveno_gateway.Prelude.Map.{lookup, insert}
use proveno_gateway.Json
use proveno_gateway.Json.{Json, Members, object, string, null, members, from_members}
use proveno_gateway.Downstream.{Tool, CallToolResult, text}
use proveno_gateway.Server.{
  ErrorData, invalid_params, Reply, answer, aborted, Response, passed_on, unauthorized,
}
use proveno_gateway.Demo.{Library, json_object, object_schema, of_type, described, argument}

abbrev pub tools : List Tool
tools =
    record {
      name = codes "get_price";
      description = some (codes "Current and 24h-ago price for a trading pair.");
      input_schema =
          object_schema
            (object (
              json_object
                ((codes "pair", described (codes "string") (codes "Such as ETH/USD.")) ∷ [])))
            (codes "pair" ∷ []);
      output_schema = some (
          object_schema
            (object (
              json_object (
                (codes "pair", of_type (codes "string"))
                ∷ (codes "price", of_type (codes "number"))
                ∷ (codes "price_24h_ago", of_type (codes "number"))
                ∷ [])))
            (codes "pair" ∷ codes "price" ∷ codes "price_24h_ago" ∷ []));
    }
    ∷ []

pub unknown_tool : Text → Text
unknown_tool name = codes "unknown tool `" ++ name ++ codes "`"

pub unknown_pair : Text → Text
unknown_pair pair = codes "unknown pair `" ++ pair ++ codes "`"

-- `response[key] = value`: null becomes an object, and what is neither null nor an object panics.
unfoldable pub set_member : Text → Json → Json → Option Json
set_member key value (object ms) = some (object (from_members (insert key value (members ms))))
set_member key value null = some (object (from_members ((key, value) ∷ [])))
set_member key value _ = none

-- `main` up to the serving: the prices of a file; the reading and the parsing are parameters.
pub load_prices :
    (read_to_string : Text → Result Text Text) (from_str : Text → Result (List (Text × Json)) Text)
    → Text
    → Result (List (Text × Json)) Text
load_prices read_to_string from_str fixture = do
  content ← map_err (λ e. fixture ++ codes ": " ++ e) (read_to_string fixture)
  map_err (λ e. fixture ++ codes ": " ++ e) (from_str content)

abbrev pub pair_of : Option Json → Text
pair_of none = []
pair_of (some v) = elim (Json.as_str v) [ none ↦ [] | some s ↦ s ]

-- `Prices` is a map from pairs to quotes.
module _ (lib : Library) (prices : List (Text × Json)) where
  unfoldable pub get_price : Text → Reply CallToolResult
  unfolding set_member
  get_price pair = elim (lookup pair prices) [
    | none ↦ answer (ok (lib.error (text (unknown_pair pair) ∷ [])))
    | some quote ↦ elim (set_member (codes "pair") (string pair) quote) [
      | some response ↦ answer (ok (lib.structured response))
      | none ↦ aborted (lib.index_panic (codes "pair") quote)
    ]
  ]

  unfoldable pub call_tool : Text → Option Members → Reply CallToolResult
  unfolding get_price
  call_tool name arguments =
      if name == codes "get_price"
      then get_price (pair_of (argument arguments (codes "pair")))
      else answer (err (invalid_params (unknown_tool name)))

-- The `Authorization` header after `Bearer `, if there is one and it is text.
abbrev pub presented : Option Text → Option Text
presented none = none
presented (some value) = strip_prefix value (codes "Bearer ")

unfoldable pub require_bearer : {R : Type 0} (expected : Text) (next : R) → Option Text → Response R
require_bearer expected next header = elim (presented header) [
  | none ↦ unauthorized
  | some token ↦ if token == expected then passed_on next else unauthorized
]

-- the layer is there only if `MARKET_TOKEN` is set
unfoldable pub serve : {R : Type 0} (token : Option Text) (next : R) → Option Text → Response R
unfolding require_bearer
serve none next header = passed_on next
serve (some token) next header = require_bearer token next header
