-- ===== src/Json.antt =====
-- `serde_json::Value`, as the program reads and builds it. A number is given by what the
-- library's accessors answer of it (`as_i64`, `as_u64`) and by its printed form, so nothing is
-- assumed of the library's number formats. The members of an object stand in iteration order.
use proveno_gateway.Prelude.{ℕ, ℤ, Text, Bool, true, false, Option, none, some, List, [], ◌∷◌}
use proveno_gateway.Prelude.Map.{lookup}

pub record Number : Type 0 where
  pub as_i64 : Option ℤ
  pub as_u64 : Option ℕ
  pub text : Text

mutual
  pub data Json : Type 0 where
    null : Json
    boolean : Bool → Json
    number : Number → Json
    string : Text → Json
    array : Items → Json
    object : Members → Json

  pub data Items : Type 0 where
    nil : Items
    item : Json → Items → Items

  pub data Members : Type 0 where
    end : Members
    member : Text → Json → Members → Members

abbrev pub items : Items → List Json
items nil = []
items (item v vs) = v ∷ items vs

abbrev pub members : Members → List (Text × Json)
members end = []
members (member k v ms) = (k, v) ∷ members ms

abbrev pub from_members : List (Text × Json) → Members
from_members [] = end
from_members ((k, v) ∷ ms) = member k v (from_members ms)

-- `value.get(key)`
unfoldable pub get : Text → Json → Option Json
get k (object ms) = lookup k (members ms)
get k _ = none

abbrev pub as_i64 : Json → Option ℤ
as_i64 (number n) = n.as_i64
as_i64 _ = none

abbrev pub as_u64 : Json → Option ℕ
as_u64 (number n) = n.as_u64
as_u64 _ = none

abbrev pub as_str : Json → Option Text
as_str (string s) = some s
as_str _ = none

abbrev pub as_array : Json → Option (List Json)
as_array (array vs) = some (items vs)
as_array _ = none

abbrev pub as_object : Json → Option (List (Text × Json))
as_object (object ms) = some (members ms)
as_object _ = none

abbrev pub is_object : Json → Bool
is_object (object ms) = true
is_object _ = false

-- What the program uses of serde_json's text form: `to_string`, and `from_str` with the message
-- of its error.
pub record Serde : Type 0 where
  pub to_text : Json → Text
  pub from_text : Text → Option Json
