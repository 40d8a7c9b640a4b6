-- ===== src/Schema.antt =====
-- src/schema.rs: the arguments of a call against the tool's schema. The validator is the
-- `jsonschema` crate's, built offline.
use proveno_gateway.Prelude.{
  Text, codes, Option, none, some, [], ◌∷◌, ◌++◌, Result, ok, err, ◌>>=◌, map_err,
}
use proveno_gateway.Json.{Json}
use proveno_gateway.Downstream.{ToolSchema, qualified_name}

-- A validation error is its instance path and its message.
pub record JsonSchema : Type 1 where
  pub Validator : Type 0
  pub build_offline : Json → Result Validator Text
  pub first_error : Validator → Json → Option (Text × Text)

pub invalid_schema : Text → Text → Text
invalid_schema name e = name ++ codes ": invalid input schema: " ++ e

pub invalid_arguments : Text → Text → Text → Text
invalid_arguments name path e = name ++ codes ": invalid arguments at " ++ path ++ codes ": " ++ e

abbrev or_slash : Text → Text
or_slash [] = codes "/"
or_slash (c ∷ path) = c ∷ path

unfoldable pub check_args : JsonSchema → ToolSchema → Json → Result (Unit {0}) Text
check_args js tool args = do
  validator ← map_err (invalid_schema (qualified_name tool)) (js.build_offline tool.input_schema)
  elim (js.first_error validator args) [
    | none ↦ ok tt
    | some (path, e) ↦ err (invalid_arguments (qualified_name tool) (or_slash path) e)
  ]
