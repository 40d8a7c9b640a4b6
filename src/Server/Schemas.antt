-- ===== src/Server/Schemas.antt =====
-- src/server.rs: the schemas of the two tools.
use proveno_gateway.Prelude.{Text, codes, false, List, [], ◌∷◌, map}
use proveno_gateway.Json.{Json, Members, nil, item, object, string, boolean, array, from_members}
use proveno_gateway.Downstream.{sorted_fields}

string_property : Text × Text → Text × Json
string_property (name, about) = (
  name,
  object (
      from_members (
        sorted_fields
          ((codes "type", string (codes "string")) ∷ (codes "description", string about) ∷ []))),
)

-- the object schema of these text properties, of which `program` is required
schema_of : List (Text × Text) → Members
unfolding string_property
schema_of properties = from_members (
    sorted_fields (
      (codes "type", string (codes "object"))
      ∷ (codes "properties", object (from_members (sorted_fields (map string_property properties))))
      ∷ (codes "required", array (item (string (codes "program")) nil))
      ∷ (codes "additionalProperties", boolean false)
      ∷ []))

pub execute_schema : Members
unfolding schema_of
execute_schema = schema_of (
    (codes "program", codes "The Lua program to run.")
    ∷ (codes "session", codes "Groups related executions.")
    ∷ (codes "request", codes "The task this program serves, recorded in the trace.")
    ∷ [])

pub check_schema : Members
unfolding schema_of
check_schema = schema_of ((codes "program", codes "The Lua program to lint.") ∷ [])
