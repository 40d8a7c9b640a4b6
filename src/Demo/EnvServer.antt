-- ===== src/Demo/EnvServer.antt =====
-- examples/stdio_env_server.rs: a server that tells which environment variables it was given.
use proveno_gateway.Prelude.{
  Text, codes, ◌==◌, some, none, List, [], ◌∷◌, map, Result, ok, err, if◌then◌else◌,
}
use proveno_gateway.Prelude.Sort.{sort_by_key}
use proveno_gateway.Json.{string, object, array, Items, nil, item}
use proveno_gateway.Downstream.{Tool, CallToolResult}
use proveno_gateway.Server.{ErrorData, invalid_params}
use proveno_gateway.Demo.{Library, json_object}

abbrev pub tools : List Tool
tools =
    record {
      name = codes "env_keys";
      description = some (codes "Sorted names of this process's environment variables.");
      input_schema = json_object ((codes "type", string (codes "object")) ∷ []);
      output_schema = none;
    }
    ∷ []

abbrev strings : List Text → Items
strings [] = nil
strings (k ∷ ks) = item (string k) (strings ks)

-- `vars` are the variables of the process, each with its value
unfoldable pub call_tool :
    Library → (vars : List (Text × Text)) (name : Text) → Result CallToolResult ErrorData
call_tool lib vars name =
    if name == codes "env_keys"
    then ok (
        lib.structured (
          object (
            json_object (
              (
                codes "keys",
                array (strings (sort_by_key (λ k. k) (map (λ (v : Text × Text). v.0) vars))),
              )
              ∷ []))))
    else err (invalid_params (codes "unknown tool"))
