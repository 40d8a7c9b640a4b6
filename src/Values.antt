-- ===== src/Values.antt =====
-- src/values.rs: JSON and the VM's integer-only tables.
pub mod Storable
use proveno_gateway.Prelude.{
  ℕ, suc, pos, decimal, Text, codes, none, some, List, ◌++◌, Result, ok, err, ◌>>=◌, map_err,
}
use proveno_gateway.Json.{
  Json, null, boolean, number, string, array, object, Items, nil, item, Members, end, member,
  Number, Serde,
}
use proveno_gateway.Core.{Core, LuaKey, string_key, integer_key}

pub cannot_serialize : Text → Text
cannot_serialize e = codes "cannot serialize arguments: " ++ e

pub not_json : Text → Text
not_json e = codes "canonical arguments are not JSON: " ++ e

pub not_an_object : Text → Text
not_an_object v = codes "response must be a JSON object, got " ++ v

pub null_element : ℕ → Text
null_element i =
    codes "null at array index " ++ decimal i ++ codes " cannot be represented in a table"

pub cannot_build : Text → Text
cannot_build e = codes "cannot build response table: " ++ e

-- `from_slice` is serde_json's reader of bytes.
module _ (core : Core) (serde : Serde) (from_slice : List ℕ → Result Json Text) where
  open core use {Table, LuaValue}

  unfoldable pub table_to_json : Table → Result Json Text
  table_to_json t = do
    bytes ← map_err cannot_serialize (core.canonical_serialize_table t)
    map_err not_json (from_slice bytes)

module _ (core : Core) (serde : Serde) where
  open core use {Table, LuaValue}

  abbrev number_to_lua : Number → LuaValue
  number_to_lua n = elim n.as_i64 [ some i ↦ core.integer i | none ↦ core.string n.text ]

  abbrev pub put : Table → LuaKey → LuaValue → Result Table Text
  put t key value = map_err cannot_build (core.rawset t key value)

  -- `object_from t` and `array_from i t` are the loops of `object_to_table` and `array_to_table`,
  -- with the table built so far and, for an array, the index.
  unfoldable mutual
    pub to_lua : Json → Result LuaValue Text
    to_lua null = ok core.nil
    to_lua (boolean b) = ok (core.boolean b)
    to_lua (number n) = ok (number_to_lua n)
    to_lua (string s) = ok (core.string s)
    to_lua (array vs) = array_from vs 1 core.new_table >>= λ t. ok (core.table t)
    to_lua (object ms) = object_from ms core.new_table >>= λ t. ok (core.table t)

    pub array_from : Items → ℕ → Table → Result Table Text
    array_from nil i t = ok t
    array_from (item null vs) i t = err (null_element i)
    array_from (item v vs) i t =
        to_lua v >>= λ value. put t (integer_key (pos i)) value >>= λ t'. array_from vs (suc i) t'

    pub object_from : Members → Table → Result Table Text
    object_from end t = ok t
    object_from (member k null ms) t = object_from ms t
    object_from (member k v ms) t =
        to_lua v >>= λ value. put t (string_key k) value >>= λ t'. object_from ms t'

  unfoldable pub json_to_table : Json → Result Table Text
  unfolding to_lua
  json_to_table (object ms) = object_from ms core.new_table
  json_to_table other = err (not_an_object (serde.to_text other))
