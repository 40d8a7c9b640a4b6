-- ===== src/Demo/Client/Gateway.antt =====
-- The client's calls, as the gateway's server takes them.
use proveno_gateway.Prelude.{Text, codes, true, All, [], ◌∷◌, Option, none, some, ok, false, ◌≡◌}
use proveno_gateway.Prelude.Map.{contains}
use proveno_gateway.Json
use proveno_gateway.Json.{Json, Members, members, object, string}
use proveno_gateway.Engine.{Engine}
use proveno_gateway.Server.{ServerLibrary, ExecuteArgs}

-- A field that is absent, or a text.
abbrev pub Field : Option Json → Option Text → Type 0
Field v s = v ≡ elim s [ none ↦ none | some t ↦ some (string t) ]

-- No field but those of `ExecuteArgs`, as `deny_unknown_fields` has it.
abbrev pub OnlyFields : Members → Type 0
OnlyFields ms =
    All
      (λ (f : Text × Json).
        contains f.0 (codes "program" ∷ codes "session" ∷ codes "request" ∷ []) ≡ true)
      (members ms)

-- The derived reader of `ExecuteArgs`: of an object with no other field, texts are read, and an
-- optional field may be absent.
abbrev pub ReadsArgs : ServerLibrary → Type 0
ReadsArgs server =
    (ms : Members) (a : ExecuteArgs)
    → OnlyFields ms
    → Json.get (codes "program") (object ms) ≡ some (string a.program)
    → Field (Json.get (codes "session") (object ms)) a.session
    → Field (Json.get (codes "request") (object ms)) a.request
    → server.execute_args (object ms) ≡ ok a

abbrev pub sent : Text → Option Text → ExecuteArgs
sent program request = record { program = program; session = none; request = request }

-- The constructors of results set `is_error` as they are named.
pub record Marks (server : ServerLibrary) : Type 0 where
  pub structured : (v : Json) → (server.structured v).is_error ≡ some false
  pub structured_error : (v : Json) → (server.structured_error v).is_error ≡ some true
  pub value : (v : Json) → (server.structured v).structured_content ≡ some v
