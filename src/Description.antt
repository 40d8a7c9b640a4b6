-- ===== src/Description.antt =====
-- src/description.rs: the tool description and the prelude that goes with it.
pub mod Canonical
use proveno_gateway.Prelude.{
  ℕ, Text, String, codes, ◌==◌, split_whitespace, trim_end, join, concat, join_lines, Bool, true,
  false, not, ◌&&◌, Option, none, some, List, [], ◌∷◌, ◌++◌, map, find, if◌then◌else◌,
}
use proveno_gateway.Prelude.Map.{contains}
use proveno_gateway.Prelude.Sort.{sort_by_key}
use proveno_gateway.Json
use proveno_gateway.Json.{Json, as_str, as_array, as_object}
use proveno_gateway.Dialect.{dialect_rules}
use proveno_gateway.Downstream.{ToolSchema, qualified_name}

pub record ToolDescription : Type 0 where
  pub text : Text
  pub hash : List ℕ
  pub prelude : Text

pub example_tool : Text × Text
example_tool = (codes "example", codes "lookup")

examples : List (List String)
examples =
    ("local item = example.lookup{ id = \"a1\" }" ∷ "return item.status" ∷ [])
    ∷ ("local ok, res = pcall(function()" ∷ "  return example.lookup{ id = \"a1\" }" ∷ "end)"
        ∷ "if not ok then" ∷ "  return { ok = false, error = res }" ∷ "end"
        ∷ "return { ok = true, status = res.status }" ∷ [])
    ∷ ("local ids = { \"a1\", \"b2\" }" ∷ "local statuses = {}" ∷ "for _, id in ipairs(ids) do"
        ∷ "  local item = example.lookup{ id = id }" ∷ "  statuses[id] = item.status" ∷ "end"
        ∷ "return { count = #ids, statuses = statuses }" ∷ [])
    ∷ ("local item = example.lookup{ id = \"a1\" }"
        ∷ "local price = decimal.parse(tostring(item.price), 2)"
        ∷ "local limit = decimal.parse(\"2500.00\", 2)" ∷ "if price > limit then"
        ∷ "  return { buy = false, price = decimal.format(price, 2) }" ∷ "end"
        ∷ "return { buy = true, cost = decimal.format(price * 3, 2) }" ∷ [])
    ∷ []

fenced : List (List String) → Text
fenced [] = []
fenced (e ∷ es) = codes "\n```lua\n" ++ (join_lines e ++ (codes "\n```\n" ++ fenced es))

pub examples_section : Text
examples_section =
    codes "# Examples\n\n`"
    ++ example_tool.0
    ++ codes "."
    ++ example_tool.1
    ++ codes "{ id: string } -> table` is a placeholder; "
    ++ codes "use the tools listed in the tool API.\n"
    ++ fenced examples

-- `lua_guide` of src/dialect.rs
pub lua_guide : Text
lua_guide = dialect_rules ++ codes "\n" ++ examples_section

simple_type : Text → Option Text
simple_type ty =
    if ty == codes "boolean"
    then some (codes "boolean")
    else if ty == codes "string"
    then some (codes "string")
    else if ty == codes "array"
    then some (codes "{...}")
    else if ty == codes "object"
    then some (codes "table")
    else none

-- `prop.get("type")?.as_str()?`
abbrev type_of : Json → Option Text
type_of prop = elim (Json.get (codes "type") prop) [ none ↦ none | some t ↦ as_str t ]

argument_name : Text → Option Text
unfolding simple_type
argument_name ty =
    if ty == codes "integer"
    then some (codes "integer")
    else if ty == codes "number"
    then some (codes "integer")
    else simple_type ty

return_name : Text → Option Text
unfolding simple_type
return_name ty =
    if ty == codes "integer"
    then some (codes "integer")
    else if ty == codes "number"
    then some (codes "integer|string(decimal)")
    else simple_type ty

argument_type : Json → Option Text
unfolding argument_name
argument_type prop = elim (type_of prop) [ none ↦ none | some ty ↦ argument_name ty ]

return_type : Json → Option Text
unfolding return_name
return_type prop = elim (type_of prop) [ none ↦ none | some ty ↦ return_name ty ]

abbrev texts_in : List Json → List Text
texts_in [] = []
texts_in (v ∷ vs) = let rest = texts_in vs in elim (as_str v) [ none ↦ rest | some s ↦ s ∷ rest ]

abbrev array_at : Text → Json → List Json
array_at key schema = elim (Json.get key schema) [
  | none ↦ []
  | some v ↦ elim (as_array v) [ none ↦ [] | some vs ↦ vs ]
]

abbrev object_at : Text → Json → List (Text × Json)
object_at key schema = elim (Json.get key schema) [
  | none ↦ []
  | some v ↦ elim (as_object v) [ none ↦ [] | some ms ↦ ms ]
]

-- A property's name, its schema, and whether it is required.
pub record Property : Type 0 where
  pub name : Text
  pub schema : Json
  pub required : Bool

abbrev properties_of : List Text → List (Text × Json) → List Property
properties_of required [] = []
properties_of required ((k, v) ∷ ms) =
    record { name = k; schema = v; required = contains k required } ∷ properties_of required ms

pub sorted_properties : Json → List Property
sorted_properties schema =
    sort_by_key (λ p. p.name)
      (properties_of (texts_in (array_at (codes "required") schema))
        (object_at (codes "properties") schema))

pub directed_pairs : List (Text × Text)
directed_pairs =
    (codes "to", codes "from")
    ∷ (codes "to_address", codes "from_address")
    ∷ (codes "recipient", codes "sender")
    ∷ (codes "destination", codes "source")
    ∷ []

one_way : List Text → Text × Text → Bool
one_way names pair = contains pair.0 names && not (contains pair.1 names)

pub fixed_actor_note : Json → Option Text
unfolding one_way directed_pairs sorted_properties
fixed_actor_note input_schema =
    let names = map (λ p. p.name) (sorted_properties input_schema) in
    elim (find (one_way names) directed_pairs) [ none ↦ none | some (to, from) ↦ some from ]

typed_field : Text → Option Text → Text
typed_field name none = name
typed_field name (some ty) = name ++ codes ": " ++ ty

return_field : Property → Text
unfolding typed_field return_type
return_field p = typed_field p.name (return_type p.schema)

argument_field : Property → Text
unfolding typed_field argument_type
argument_field p =
    typed_field (if p.required then p.name else p.name ++ codes "?") (argument_type p.schema)

braced : List Text → Text
braced fields = codes "{ " ++ join (codes ", ") fields ++ codes " }"

table_or : List Property → Text
table_or [] = codes "table"
table_or (p ∷ ps) = braced (map return_field (p ∷ ps))

returns : Option Json → Text
unfolding table_or
returns none = codes "table"
returns (some schema) = table_or (sorted_properties schema)

comment : Text → Text → Text
comment [] ret = codes "-- Returns " ++ ret ++ codes "."
comment (c ∷ description) ret =
    codes "-- " ++ (c ∷ description) ++ codes ". Returns " ++ ret ++ codes "."

actor_note : Option Text → Text
actor_note none = []
actor_note (some missing) =
    codes " There is no `"
    ++ missing
    ++ codes "` argument: the account this acts as is "
    ++ codes "fixed by the gateway's credential."

signature : Text → List Property → Text
signature name [] = name ++ codes "{} -> table"
signature name (p ∷ ps) =
    name ++ codes "{ " ++ join (codes ", ") (map argument_field (p ∷ ps)) ++ codes " } -> table"

pub render_tool : ToolSchema → Text
unfolding comment actor_note signature returns
render_tool tool =
    let description = trim_end b'.' (join (codes " ") (split_whitespace tool.description)) in
    comment description (returns tool.output_schema)
    ++ actor_note (fixed_actor_note tool.input_schema)
    ++ codes "\n"
    ++ signature (qualified_name tool) (sorted_properties tool.input_schema)
    ++ codes "\n"

-- `dedup` of a sorted sequence
dedup : List Text → List Text
dedup [] = []
dedup (x ∷ []) = x ∷ []
dedup (x ∷ y ∷ xs) = let rest = dedup (y ∷ xs) in if x == y then rest else x ∷ rest

server_line : Text → Text
server_line server = codes "local " ++ server ++ codes " = {}\n"

tool_line : ToolSchema → Text
tool_line tool =
    let q = qualified_name tool in
    q ++ codes " = function(args) return tool.call(\"" ++ q ++ codes "\", args) end\n"

-- The server and tool lines, one text for each line.
pub prelude_lines : List ToolSchema → List Text
unfolding dedup server_line tool_line
prelude_lines sorted_tools =
    map server_line (dedup (sort_by_key (λ s. s) (map (λ (t : ToolSchema). t.server) sorted_tools)))
    ++ map tool_line sorted_tools

pub prelude : List ToolSchema → Text
unfolding prelude_lines
prelude sorted_tools = concat (prelude_lines sorted_tools)

tool_api : List ToolSchema → Text
tool_api [] = codes "No tools are available.\n"
tool_api (t ∷ ts) = concat (map render_tool (t ∷ ts))

-- `digest` is the SHA-256 of a text's bytes.
pub build : (digest : Text → List ℕ) → List ToolSchema → ToolDescription
build digest allowed =
    let tools = sort_by_key qualified_name allowed in
    let text =
      dialect_rules
      ++ codes "\n# Tool API\n\n"
      ++ tool_api tools
      ++ codes "\n"
      ++ examples_section in
    record { text = text; hash = digest text; prelude = prelude tools }
