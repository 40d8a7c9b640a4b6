-- ===== src/Demo.antt =====
-- demo/ and examples/: the servers that stand behind the gateway, and the client in front of it.
pub mod Wallet
pub mod Market
pub mod Client
pub mod EnvServer
use proveno_gateway.Prelude.{ℕ, ℤ, Text, codes, Option, none, some, List, [], ◌∷◌}
use proveno_gateway.Json
use proveno_gateway.Json.{
  Json, Members, Items, Number, nil, item, object, string, array, from_members,
}
use proveno_gateway.Downstream.{CallToolResult, ContentBlock, sorted_fields, text}

-- What the demo servers use of rmcp and serde_json: the constructors of `CallToolResult`, and the
-- numbers that `json!` makes of integers, and a panic.
pub record Library : Type 0 where
  pub structured : Json → CallToolResult
  pub error : List ContentBlock → CallToolResult
  pub i64_number : ℤ → Number
  pub u64_number : ℕ → Number
  -- the panic of `value[key] = ..` where the value takes no key
  pub index_panic : (key : Text) → Json → Text

-- `json!` of an object: a map in the order of its keys
abbrev pub json_object : List (Text × Json) → Members
json_object fields = from_members (sorted_fields fields)

abbrev json_array : List Text → Items
json_array [] = nil
json_array (s ∷ ss) = item (string s) (json_array ss)

pub object_schema : Json → List Text → Members
object_schema properties required = json_object (
    (codes "type", string (codes "object"))
    ∷ (codes "properties", properties)
    ∷ (codes "required", array (json_array required))
    ∷ [])

-- `{ "type": type }`
abbrev pub of_type : Text → Json
of_type type = object (json_object ((codes "type", string type) ∷ []))

-- `{ "type": type, "description": about }`
abbrev pub described : Text → Text → Json
described type about =
    object (json_object ((codes "type", string type) ∷ (codes "description", string about) ∷ []))

-- `request.arguments.as_ref().and_then(|a| a.get(name))`
abbrev pub argument : Option Members → Text → Option Json
argument none name = none
argument (some ms) name = Json.get name (object ms)
