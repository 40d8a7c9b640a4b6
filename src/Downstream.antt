-- ===== src/Downstream.antt =====
-- src/downstream.rs: the tools of the downstream servers, calls to them, and what they report.
mod Provenances
pub mod Connect
pub mod Routing
pub mod Reports
pub mod Results
pub mod Shapes
pub mod Owned
unfoldable pub use Provenances.*
use proveno_gateway.Prelude.{
  ℕ, Text, codes, ◌==◌, has_char, split_once, join, concat, Bool, true, false, ◌&&◌, Option, none,
  some, is_some, List, [], ◌∷◌, ◌++◌, map, any, Result, ok, err, ◌>>=◌, map_err, if◌then◌else◌,
}
use proveno_gateway.Prelude.Map.{lookup, insert}
use proveno_gateway.Prelude.Sort.{sort_by_key}
use proveno_gateway.Json
use proveno_gateway.Json.{
  Json, Members, object, string, number, Number, Serde, members, from_members, is_object, as_str,
}
use proveno_gateway.Trace.{Provenance, unsigned, signed, onchain, notarized}

abbrev pub dot : ℕ
dot = b'.'

pub record ToolSchema : Type 0 where
  pub server : Text
  pub name : Text
  pub description : Text
  pub input_schema : Json
  pub output_schema : Option Json

unfoldable pub qualified_name : ToolSchema → Text
qualified_name t = t.server ++ dot ∷ t.name

-- `rmcp`'s tool, as a server lists it
pub record Tool : Type 0 where
  pub name : Text
  pub description : Option Text
  pub input_schema : Members
  pub output_schema : Option Members

pub data ContentBlock : Type 0 where
  text : Text → ContentBlock
  other_block : ContentBlock

pub record CallToolResult : Type 0 where
  pub content : List ContentBlock
  pub structured_content : Option Json
  pub is_error : Option Bool
  pub meta : Option Members

-- The connections, over the state `W` of what stands behind them.
pub record Rmcp (W : Type 0) : Type 1 where
  pub Client : Type 0
  pub call_tool : Client → Text → Option Members → W → Result CallToolResult Text × W

pub record Downstreams (Client : Type 0) : Type 0 where
  pub clients : List (Text × Client)
  pub tools : List ToolSchema

pub record ToolResponse : Type 0 where
  pub value : Json
  pub provenance : Provenance
  pub attestation : List ℕ

abbrev object_of : Option Members → Option Json
object_of none = none
object_of (some ms) = some (object ms)

-- the text of `DownstreamError::Connect`
pub dotted_tool : Text → Text → Text
dotted_tool server name =
    codes "downstream `"
    ++ server
    ++ codes "`: tool name `"
    ++ name
    ++ codes "` must not contain `.`"

unfoldable pub tool_schema : Text → Tool → Result ToolSchema Text
tool_schema server tool =
    if has_char dot tool.name
    then err (dotted_tool server tool.name)
    else ok (record {
      server = server;
      name = tool.name;
      description = or_blank tool.description;
      input_schema = object tool.input_schema;
      output_schema = object_of tool.output_schema;
    })

-- `for tool in listed { tools.push(..) }`
unfoldable pub push_tools : Text → List ToolSchema → List Tool → Result (List ToolSchema) Text
unfolding tool_schema
push_tools server tools [] = ok tools
push_tools server tools (t ∷ listed) =
    tool_schema server t >>= λ s. push_tools server (tools ++ s ∷ []) listed

abbrev block_text : ContentBlock → List Text
block_text (text s) = s ∷ []
block_text other_block = []

unfoldable pub texts : List ContentBlock → List Text
texts [] = []
texts (b ∷ bs) = block_text b ++ texts bs

abbrev pub is_true : Option Bool → Bool
is_true (some true) = true
is_true _ = false

abbrev wrap : Text → Json → Json
wrap key v = object (from_members ((key, v) ∷ []))

-- a value that is no object goes under `value`
abbrev pub as_table : Json → Json
as_table (object ms) = object ms
as_table other = wrap (codes "value") other

abbrev if_object : Option Json → Option Json
if_object (some (object ms)) = some (object ms)
if_object _ = none

module _ (serde : Serde) where
  -- the single text block that is itself a JSON object
  single_object : List ContentBlock → Option Json
  single_object (text s ∷ []) = if_object (serde.from_text s)
  single_object _ = none

  -- the `if let` chain
  result_value : CallToolResult → Json
  unfolding texts single_object
  result_value result = elim result.structured_content [
    | some structured ↦ structured
    | none ↦ elim (single_object result.content) [
      | some v ↦ v
      | none ↦ wrap (codes "text") (string (concat (texts result.content)))
    ]
  ]

  unfoldable pub map_result : CallToolResult → Result Json Text
  unfolding texts result_value
  map_result result =
      if is_true result.is_error
      then err (concat (texts result.content))
      else ok (as_table (result_value result))

pub unknown_tool : Text → Text
unknown_tool qualified = codes "unknown tool `" ++ qualified ++ codes "`"

pub not_an_object : Text → Text
not_an_object qualified = qualified ++ codes ": arguments must be a JSON object"

pub malformed_provenance : Text → Text → Text → Text
malformed_provenance qualified server e =
    qualified ++ codes ": malformed provenance from downstream `" ++ server ++ codes "`: " ++ e

pub call_failed : Text → Text → Text
call_failed qualified e = qualified ++ codes ": " ++ e

-- the `arguments` of a request: an object, or none for null
abbrev pub arguments_of : Text → Json → Result (Option Members) Text
arguments_of qualified (object ms) = ok (some ms)
arguments_of qualified Json.null = ok none
arguments_of qualified _ = err (not_an_object qualified)

module _ {W : Type 0} (serde : Serde) (ps : ProvenanceSerde) (rmcp : Rmcp W) where
  -- `result.meta.take()`, then the value, then the provenance
  pub read_response : Text → Text → CallToolResult → Result ToolResponse Text
  unfolding map_result read_provenance
  read_response qualified server result = do
    value ← map_result serde result
    found ← map_err (malformed_provenance qualified server) (read_provenance ps result.meta)
    ok (record { value = value; provenance = found.0; attestation = found.1 })

  abbrev pub dispatch :
      rmcp.Client
      → Text
      → Text
      → Text
      → Result (Option Members) Text
      → W
      → Result ToolResponse Text × W
  dispatch client qualified server tool (err e) w = (err e, w)
  dispatch client qualified server tool (ok arguments) w =
      let (result, w') = rmcp.call_tool client tool arguments w in
      (map_err (call_failed qualified) result >>= read_response qualified server, w')

  abbrev pub is_known : List ToolSchema → Text → Text → Bool
  is_known tools server tool = any (λ t. t.server == server && t.name == tool) tools

  call_split :
      Downstreams rmcp.Client
      → Text
      → Json
      → Option (Text × Text)
      → W
      → Result ToolResponse Text × W
  unfolding read_response
  call_split d qualified args none w = (err (unknown_tool qualified), w)
  call_split d qualified args (some (server, tool)) w = elim (lookup server d.clients) [
    | none ↦ (err (unknown_tool qualified), w)
    | some client ↦
        if is_known d.tools server tool
        then dispatch client qualified server tool (arguments_of qualified args) w
        else (err (unknown_tool qualified), w)
  ]

  unfoldable pub call : Downstreams rmcp.Client → Text → Json → W → Result ToolResponse Text × W
  unfolding call_split
  call d qualified args w = call_split d qualified args (split_once dot qualified) w
