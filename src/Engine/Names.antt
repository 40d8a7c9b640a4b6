-- ===== src/Engine/Names.antt =====
-- src/engine.rs, `check_lua_names`: the names that the prelude declares in Lua.
use proveno_gateway.Prelude.{
  ℕ, leb, nat_eq, ◌≤◌, Text, codes, Bool, true, false, Bool-cases, not, ◌&&◌, ◌||◌, List, [], ◌∷◌,
  ◌++◌, map, all, All, Result, ok, err, if◌then◌else◌, ◌≡◌, ◌↔◌, ◌⊎◌, refl, inl, inr, arith,
}
use proveno_gateway.Prelude.Map.{contains}
use proveno_gateway.Downstream.{ToolSchema, qualified_name}

abbrev pub lua_keywords : List Text
lua_keywords = map codes (
    "and" ∷ "break" ∷ "do" ∷ "else" ∷ "elseif" ∷ "end" ∷ "false" ∷ "for" ∷ "function" ∷ "goto"
    ∷ "if" ∷ "in" ∷ "local" ∷ "nil" ∷ "not" ∷ "or" ∷ "repeat" ∷ "return" ∷ "then" ∷ "true" ∷ "until"
    ∷ "while" ∷ [])

abbrev pub dialect_names : List Text
dialect_names = map codes (
    "tool" ∷ "string" ∷ "math" ∷ "table" ∷ "json" ∷ "tostring" ∷ "tonumber" ∷ "type" ∷ "select"
    ∷ "unpack" ∷ "pairs_sorted" ∷ "pairs" ∷ "ipairs" ∷ "pcall" ∷ "error" ∷ "log" ∷ "print" ∷ "debug"
    ∷ "io" ∷ "os" ∷ "package" ∷ "require" ∷ "load" ∷ "dofile" ∷ "loadfile" ∷ "loadstring"
    ∷ "collectgarbage" ∷ "setmetatable" ∷ "getmetatable" ∷ "rawget" ∷ "rawset" ∷ "setfenv"
    ∷ "getfenv" ∷ "coroutine" ∷ [])

-- `c.is_ascii_alphabetic() || c == '_'`
unfoldable pub starts_name : ℕ → Bool
starts_name c = leb b'A' c && leb c b'Z' || leb b'a' c && leb c b'z' || nat_eq c b'_'

-- `c.is_ascii_alphanumeric() || c == '_'`
unfoldable pub continues_name : ℕ → Bool
unfolding starts_name
continues_name c = starts_name c || leb b'0' c && leb c b'9'

-- the closure `is_name`
unfoldable pub is_name : Text → Bool
unfolding starts_name continues_name
is_name [] = false
is_name (c ∷ s) = starts_name c && all continues_name s && not (contains (c ∷ s) lua_keywords)

pub bad_server : ToolSchema → Text
bad_server tool =
    codes "tool "
    ++ qualified_name tool
    ++ codes ": downstream name `"
    ++ tool.server
    ++ codes "` is not usable as a Lua name"

pub bad_tool : ToolSchema → Text
bad_tool tool =
    codes "tool "
    ++ qualified_name tool
    ++ codes ": tool name `"
    ++ tool.name
    ++ codes "` is not usable as a Lua field name"

unfoldable pub check_lua_names : ToolSchema → Result (Unit {0}) Text
unfolding is_name
check_lua_names tool =
    if not (is_name tool.server) || contains tool.server dialect_names
    then err (bad_server tool)
    else if not (is_name tool.name)
    then err (bad_tool tool)
    else ok tt

-- A letter of ASCII or an underscore; and with the digits.
abbrev pub Letter : ℕ → Type 0
Letter c = (b'A' ≤ c) × (c ≤ b'Z') ⊎ (b'a' ≤ c) × (c ≤ b'z') ⊎ (c ≡ b'_')

abbrev pub NameChar : ℕ → Type 0
NameChar c = Letter c ⊎ (b'0' ≤ c) × (c ≤ b'9')

abbrev pub Identifier : Text → Type 0
Identifier [] = ⊥
Identifier (c ∷ s) = Letter c × All NameChar s

-- A name that Lua reads as one identifier.
pub record LuaName (s : Text) : Type 0 where
  pub identifier : Identifier s
  pub free : contains s lua_keywords ≡ false

Letter-starts_name : (c : ℕ) → starts_name c ≡ true → Letter c
unfolding starts_name
Letter-starts_name c h = ground arith

NameChar-continues_name : (c : ℕ) → continues_name c ≡ true → NameChar c
unfolding continues_name
NameChar-continues_name c h = elim (Bool-cases (starts_name c)) [
  | inl l ↦ inl (Letter-starts_name c l)
  | inr n ↦ inr (ground arith)
]

All-continues_name : (s : Text) → all continues_name s ≡ true → All NameChar s
All-continues_name [] h = tt
All-continues_name (c ∷ s) h =
    (NameChar-continues_name c (ground arith), All-continues_name s (ground arith))

LuaName-is_name : (s : Text) → is_name s ≡ true → LuaName s
unfolding is_name
LuaName-is_name [] h = cc
LuaName-is_name (c ∷ s) h = record {
  identifier = (Letter-starts_name c (ground arith), All-continues_name s (ground arith));
  free = ground arith;
}

-- A tool whose names were accepted: its server and its own name are identifiers of Lua and no
-- keywords, and the server's name is none of `DIALECT_NAMES`. That list does not have `decimal`,
-- which is a library of the dialect.
pub record Declarable (tool : ToolSchema) : Type 0 where
  pub server : LuaName tool.server
  pub unlisted : contains tool.server dialect_names ≡ false
  pub name : LuaName tool.name

pub check_lua_names-Declarable :
    (tool : ToolSchema) → check_lua_names tool ≡ ok tt → Declarable tool
unfolding check_lua_names
check_lua_names-Declarable tool h = elim (Bool-cases (is_name tool.server)) [
  | inr n ↦ absurd (ground arith)
  | inl s ↦ elim (Bool-cases (contains tool.server dialect_names)) [
    | inl taken ↦ absurd (ground arith)
    | inr free ↦ elim (Bool-cases (is_name tool.name)) [
      | inr n ↦ absurd (ground arith)
      | inl t ↦ record {
        server = LuaName-is_name tool.server s;
        unlisted = free;
        name = LuaName-is_name tool.name t;
      }
    ]
  ]
]

starts_name-Letter : (c : ℕ) → Letter c → starts_name c ≡ true
unfolding starts_name
starts_name-Letter c h = ground arith

continues_name-NameChar : (c : ℕ) → NameChar c → continues_name c ≡ true
unfolding continues_name
continues_name-NameChar c (inl l) = ground (arith, starts_name-Letter c l)
continues_name-NameChar c (inr (low, high)) = ground arith

all-NameChar : (s : Text) → All NameChar s → all continues_name s ≡ true
all-NameChar [] h = refl
all-NameChar (c ∷ s) h = ground (arith, continues_name-NameChar c h.0, all-NameChar s h.1)

is_name-LuaName : (s : Text) → LuaName s → is_name s ≡ true
unfolding is_name
is_name-LuaName [] n = absurd n.identifier
is_name-LuaName (c ∷ s) n =
    let (first, others) = n.identifier in
    ground (arith, starts_name-Letter c first, all-NameChar s others, n.free)

-- The names of a tool are accepted exactly if its server and its own name are each a letter of ASCII
-- or an underscore, then letters, digits and underscores, and no keyword of Lua, and the server's
-- name is none of `DIALECT_NAMES`.
pub check_lua_names_iff : (tool : ToolSchema) → (check_lua_names tool ≡ ok tt) ↔ Declarable tool
unfolding check_lua_names
check_lua_names_iff tool = (
  check_lua_names-Declarable tool,
  λ d.
      ground
        (arith, is_name-LuaName tool.server d.server, d.unlisted, is_name-LuaName tool.name d.name),
)
