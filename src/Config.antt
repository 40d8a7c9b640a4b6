-- ===== src/Config.antt =====
-- src/config.rs: the gateway's configuration.
pub mod Names
use proveno_gateway.Prelude.{
  ℕ, Text, codes, ◌==◌, has_char, strip_prefix, Bool, false, Option, none, some, List, [], ◌∷◌,
  ◌++◌, Result, ok, err, ◌>>=◌, ◌>>◌, map_err, if◌then◌else◌,
}
use proveno_gateway.Prelude.Map.{contains}
use proveno_gateway.Core.{VmConfig}
use proveno_gateway.Trace.{VmSettings}
use proveno_gateway.Store.{join_path}

-- `ConfigError::Invalid`
pub data ConfigError : Type 0 where
  invalid : Text → ConfigError

-- The text of a reference, `env:NAME`.
pub record Secret : Type 0 where
  pub reference : Text

pub record ServerConfig : Type 0 where
  pub listen : Text
  pub signing_key : Secret

pub data Transport : Type 0 where
  stdio : (command : Text) → Transport
  http : (url : Text) → Transport

pub record DownstreamConfig : Type 0 where
  pub name : Text
  pub transport : Transport
  pub credential : Option Secret

pub record RawDownstream : Type 0 where
  pub name : Text
  pub transport : Text
  pub command : Option Text
  pub url : Option Text
  pub credential : Option Secret

pub record PolicyRef : Type 0 where
  pub file : Text

pub record StoreConfig : Type 0 where
  pub dir : Text

pub record PrincipalConfig : Type 0 where
  pub token : Secret

pub record GatewayConfig : Type 0 where
  pub server : ServerConfig
  pub vm : VmSettings
  pub downstream : List DownstreamConfig
  pub policy : PolicyRef
  pub store : StoreConfig
  pub principals : List (Text × PrincipalConfig)

-- `impl Default for VmSettings`, from core's default configuration
pub default_settings : VmConfig → VmSettings
default_settings d = record {
  gas_limit = d.gas_limit;
  memory_limit_bytes = d.memory_limit_bytes;
  max_call_depth = d.max_call_depth;
  max_tool_calls = d.max_tool_calls;
  max_tool_bytes_in = d.max_tool_bytes_in;
  max_tool_bytes_out = d.max_tool_bytes_out;
  max_output_bytes = d.max_output_bytes;
}

-- `impl From<&VmSettings> for VmConfig`
unfoldable pub vm_config : VmSettings → VmConfig
vm_config s = record {
  gas_limit = s.gas_limit;
  memory_limit_bytes = s.memory_limit_bytes;
  max_call_depth = s.max_call_depth;
  max_tool_calls = s.max_tool_calls;
  max_tool_bytes_in = s.max_tool_bytes_in;
  max_tool_bytes_out = s.max_tool_bytes_out;
  max_output_bytes = s.max_output_bytes;
  record_trace = false;
}

downstream_error : Text → Text → Text
downstream_error name rest = codes "downstream `" ++ name ++ codes "`: " ++ rest

-- the arms of `try_from`, by the transport's name and which fields are given
transport_of : Text → Text → Option Text → Option Text → Result Transport Text
unfolding downstream_error
transport_of name kind command url =
    if kind == codes "stdio"
    then elim url [
      | some u ↦ err (downstream_error name (codes "stdio transport takes `command`, not `url`"))
      | none ↦ elim command [
        | none ↦ err (downstream_error name (codes "stdio transport requires `command`"))
        | some c ↦ ok (stdio c)
      ]
    ]
    else if kind == codes "http"
    then elim command [
      | some c ↦ err (downstream_error name (codes "http transport takes `url`, not `command`"))
      | none ↦ elim url [
        | none ↦ err (downstream_error name (codes "http transport requires `url`"))
        | some u ↦ ok (http u)
      ]
    ]
    else err (
        downstream_error name
          (codes "unknown transport `" ++ kind ++ codes "`, expected `stdio` or `http`"))

pub downstream_try_from : RawDownstream → Result DownstreamConfig Text
unfolding transport_of
downstream_try_from raw = do
  transport ← transport_of raw.name raw.transport raw.command raw.url
  ok (record { name = raw.name; transport = transport; credential = raw.credential })

not_a_reference : Text → Text
not_a_reference s =
    codes "secret `" ++ s ++ codes "` must have the form `env:NAME`; no other form is accepted"

pub secret_try_from : Text → Result Secret Text
unfolding not_a_reference
secret_try_from s = elim (strip_prefix s (codes "env:")) [
  | none ↦ err (not_a_reference s)
  | some [] ↦ err (not_a_reference s)
  | some (c ∷ name) ↦ ok (record { reference = s })
]

-- The text behind `env:`; a reference is built only from a text that has it.
unfoldable pub env_name : Secret → Text
env_name secret = elim (strip_prefix secret.reference (codes "env:")) [
  | none ↦ []
  | some name ↦ name
]

not_set : Text → Text
not_set name = codes "environment variable `" ++ name ++ codes "` is not set"

-- `var` is the process's environment.
unfoldable pub resolve : (var : Text → Option Text) → Secret → Result Text ConfigError
unfolding not_set
resolve var secret = elim (var (env_name secret)) [
  | none ↦ err (invalid (not_set (env_name secret)))
  | some value ↦ ok value
]

pub dotted_name : Text → Text
dotted_name name = codes "downstream `" ++ name ++ codes "`: name must not contain `.`"

pub repeated_name : Text → Text
repeated_name name = codes "downstream `" ++ name ++ codes "`: name is used more than once"

-- the loop of `parse`, with the names seen so far
check_names : List Text → List DownstreamConfig → Result (Unit {0}) ConfigError
check_names names [] = ok tt
check_names names (d ∷ ds) =
    let rest = check_names (d.name ∷ names) ds in
    if has_char b'.' d.name
    then err (invalid (dotted_name d.name))
    else if contains d.name names
    then err (invalid (repeated_name d.name))
    else rest

-- the last two assignments of `parse`
abbrev pub resolve_paths : Text → GatewayConfig → GatewayConfig
resolve_paths base config = record config {
  policy = record config.policy { file = join_path base config.policy.file };
  store = record config.store { dir = join_path base config.store.dir };
}

-- The `toml` crate's reader, given the conversions that it is to call.
pub record TomlReader : Type 0 where
  pub from_str :
      (RawDownstream → Result DownstreamConfig Text)
      → (Text → Result Secret Text)
      → Text
      → Result GatewayConfig Text

unfoldable pub parse : TomlReader → Text → Text → Result GatewayConfig ConfigError
unfolding check_names
parse toml text base = do
  config ← map_err invalid (toml.from_str downstream_try_from secret_try_from text)
  check_names [] config.downstream
  ok (resolve_paths base config)

abbrev in_file : Text → ConfigError → ConfigError
in_file path (invalid e) = invalid (path ++ codes ": " ++ e)

abbrev or_empty : Option Text → Text
or_empty none = []
or_empty (some p) = p

-- `read_to_string` is the operating system's, `parent` that of `std::path`.
unfoldable pub load :
    TomlReader
    → (read_to_string : Text → Result Text Text) → (parent : Text → Option Text) → Text
    → Result GatewayConfig ConfigError
load toml read_to_string parent path = do
  text ← map_err (λ e. in_file path (invalid e)) (read_to_string path)
  map_err (in_file path) (parse toml text (or_empty (parent path)))
