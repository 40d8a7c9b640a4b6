-- ===== src/Examples/World.antt =====
-- Libraries to run the gateway on: a VM that calls one tool and returns its answer, a codec that
-- keeps texts as they are, and one downstream server that counts its calls.
use proveno_gateway.Prelude.{
  ℕ, suc, Text, codes, ◌==◌, eq_refl, Option, none, some, List, [], ◌∷◌, ◌++◌, length, Result, ok,
  err, Result-cases, ◌≡◌, refl, inl, inr, arith,
}
use proveno_gateway.Json
use proveno_gateway.Json.{Json, Number, Serde, object}
use proveno_gateway.Core.{
  Core, VmError, tool_error, ToolCallRecord, ok_call, error_call, VmConfig, LuaKey, HostInterface,
  TapeCall, Divergence, ExecOutput, Run, Calls, blob, RecordsCalls, ReplaysRuns,
}
use proveno_gateway.Core
use proveno_gateway.Trace.{Crypto, VmSettings, unsigned}
use proveno_gateway.Trace.Signing.{IsSound}
use proveno_gateway.Policy.{Policy}
use proveno_gateway.Downstream
use proveno_gateway.Downstream.{ToolSchema, Rmcp, CallToolResult, Downstreams, ProvenanceSerde}
use proveno_gateway.Schema.{JsonSchema}
use proveno_gateway.Store.{Codec, Fs, TraceStore, open_store}
use proveno_gateway.Host.{Libraries, Settings}
use proveno_gateway.Engine.{Tools, Engine, ExecuteRequest, Moment}
use proveno_gateway.Store

abbrev pub read_name : Text
read_name = codes "files.read"

abbrev record_of : Text → List ℕ → Text → List ℕ → Core.ToolCallStatus → ToolCallRecord
record_of name canonical message attestation status = record {
  seq = 0;
  tool_name = name;
  args_canonical = [];
  args_bytes = 0;
  response_hash = [];
  response_bytes = length canonical;
  response_canonical = canonical;
  error_message = message;
  attestation = attestation;
  gas_charged = 1;
  status = status;
}

-- The one call of a program, and what is made of it.
abbrev after :
    {S : Type 0} → HostInterface S (List ℕ) → Text → Result (List ℕ) Text × S → Run (List ℕ) S
after h name (ok answer, s1) = record {
  result = ok (record { return_value = answer; gas_used = 7; memory_used = 3 });
  gas_used = 7;
  memory_used = 3;
  transcript = record_of name answer [] (blob (h.take_attestation s1).0) ok_call ∷ [];
  host = (h.take_attestation s1).1;
}
after h name (err m, s1) = record {
  result = err (tool_error m);
  gas_used = 5;
  memory_used = 2;
  transcript = record_of name [] m [] error_call ∷ [];
  host = s1;
}

abbrev run_program : {S : Type 0} → HostInterface S (List ℕ) → VmConfig → Text → S → Run (List ℕ) S
run_program h config program s = after h read_name (h.call_tool s read_name [])

pub record Tape : Type 0 where
  pub records : List ToolCallRecord
  pub diverged : Option Divergence

abbrev answer_of : ToolCallRecord → Core.ToolCallStatus → Result (List ℕ) Text
answer_of r ok_call = ok r.response_canonical
answer_of r error_call = err r.error_message

abbrev tape_call : Tape → Text → List ℕ → Result (List ℕ) Text × Tape
tape_call t name args = elim t.records [
  | [] ↦ (
    err [],
    record t {
      diverged = some (record {
        seq = 0;
        expected = none;
        actual = record { tool_name = name; args_canonical = args };
      });
    },
  )
  | r ∷ rs ↦ (answer_of r r.status, record t { records = rs })
]

abbrev pub core : Core
core = record {
  Table = List ℕ;
  LuaValue = List ℕ;
  Block = Text;
  Program = Text;
  TapeHost = Tape;
  nil = [];
  boolean = λ b. [];
  integer = λ n. [];
  string = λ s. s;
  table = λ t. t;
  as_string = some;
  new_table = [];
  rawset = λ t k v. ok v;
  canonical_serialize_table = ok;
  canonical_serialize = ok;
  debug_value = λ v. v;
  parse = ok;
  compile = ok;
  verify = λ p. ok tt;
  program_hash = λ p. codes "ab12";
  execute = run_program;
  strict_tape = λ rs. record { records = rs; diverged = none };
  tape_host = record { call_tool = tape_call; take_attestation = λ t. (none, t) };
  divergence = λ t. t.diverged;
  remaining = λ t. length t.records;
}

after-Calls :
    {S : Type 0} (h : HostInterface S (List ℕ)) (name : Text) (s : S) (x : Result (List ℕ) Text × S)
    → h.call_tool s name [] ≡ x
    → Calls core.canonical_serialize_table h s (after h name x).transcript (after h name x).host
after-Calls h name s (ok answer, s1) e =
    Calls.returned (record_of name answer [] (blob (h.take_attestation s1).0) ok_call) [] answer s1
      (h.take_attestation s1).1 (h.take_attestation s1).0 answer e refl refl refl refl refl
      Calls.done
after-Calls h name s (err m, s1) e =
    Calls.failed (record_of name [] m [] error_call) [] m s1 e refl refl refl Calls.done

pub core-RecordsCalls : RecordsCalls core
core-RecordsCalls = record {
  calls = λ h config program s. after-Calls h read_name s (h.call_tool s read_name []) refl;
}

pub core-ReplaysRuns : ReplaysRuns core
core-ReplaysRuns = record {
  same = λ h config program s recordable. elim (Result-cases (h.call_tool s read_name []).0) [
    | inl (a, e) ↦ record {
      result = ground (arith, e);
      gas_used = ground (arith, e);
      memory_used = ground (arith, e);
      divergence = ground (arith, e);
      remaining = ground (arith, e);
    }
    | inr (m, e) ↦ record {
      result = ground (arith, e);
      gas_used = ground (arith, e);
      memory_used = ground (arith, e);
      divergence = ground (arith, e);
      remaining = ground (arith, e);
    }
  ];
}

-- Hex that keeps bytes as they are, and a signature that is the key before the digest.
abbrev pub crypto : Crypto
crypto = record {
  SigningKey = Text;
  VerifyingKey = Text;
  to_vec = λ t. t.header.trace_id;
  sha256 = λ bytes. bytes;
  encode_hex = λ bytes. bytes;
  decode_hex = λ n s. some s;
  key_from_bytes = λ bytes. bytes;
  verifying_key = λ key. key;
  sign = λ key m. key ++ m;
  verify_strict = λ key m s. s == key ++ m;
}

pub crypto-IsSound : IsSound crypto
crypto-IsSound = record { decode = λ key m. refl; accept = λ key m. eq_refl (key ++ m) }

-- The downstream's answer, and one more call counted.
abbrev pub hello : CallToolResult
hello = record {
  content = Downstream.text (codes "hi") ∷ [];
  structured_content = none;
  is_error = none;
  meta = none;
}

abbrev pub rmcp : Rmcp ℕ
rmcp = record { Client = Unit; call_tool = λ client tool args w. (ok hello, suc w) }

abbrev pub serde : Serde
serde = record { to_text = λ v. []; from_text = λ s. none }

abbrev pub json_schema : JsonSchema
json_schema = record {
  Validator = Unit;
  build_offline = λ schema. ok tt;
  first_error = λ v args. none;
}

abbrev pub provenance_serde : ProvenanceSerde
provenance_serde = record {
  number_of = λ n. record { as_i64 = none; as_u64 = some n; text = [] };
  read = λ v. ok unsigned;
  write = λ fields. [];
}

abbrev pub libs : Libraries ℕ
libs = record {
  core = core;
  serde = serde;
  from_slice = λ bytes. ok (object Json.end);
  json_schema = json_schema;
  provenance_serde = provenance_serde;
  rmcp = rmcp;
}

abbrev pub vm : VmSettings
vm = record {
  gas_limit = 1000;
  memory_limit_bytes = 1000;
  max_call_depth = 10;
  max_tool_calls = 10;
  max_tool_bytes_in = 100;
  max_tool_bytes_out = 100;
  max_output_bytes = 100;
}

abbrev pub alice : Text
alice = codes "alice"

abbrev pub read_tool : ToolSchema
read_tool = record {
  server = codes "files";
  name = codes "read";
  description = codes "Reads.";
  input_schema = object Json.end;
  output_schema = none;
}

abbrev pub policy : Policy
policy = record { principals = (alice, read_name ∷ []) ∷ []; constraints = [] }

abbrev pub downstreams : Downstreams Unit
downstreams = record { clients = (codes "files", tt) ∷ []; tools = read_tool ∷ [] }

abbrev pub store : TraceStore
store = open_store (codes "/s")

abbrev pub engine : Engine Unit Text
engine = record {
  vm = vm;
  policy = policy;
  downstreams = downstreams;
  store = store;
  signing_key = codes "5e";
}

abbrev pub tools : Tools
tools = record {
  digest = λ s. codes "cd34";
  policy_bytes = λ p. codes "ef";
  sha256 = λ bytes. bytes;
  from_utf8 = λ bytes. bytes;
  lossy = λ bytes. bytes;
  from_str = λ s. Json.string s;
}

abbrev pub request : ExecuteRequest
request = record { program = codes "return 1"; session = none; request = none }

abbrev pub moment : Moment
moment = record {
  trace_id = codes "0a";
  program_faults = Store.no_faults;
  description_faults = Store.no_faults;
  trace_faults = Store.no_faults;
}

abbrev pub empty_fs : Fs
empty_fs = record { files = []; pid = 1; counter = 0 }

abbrev pub settings : Settings Unit
settings = record {
  principal = alice;
  downstreams = downstreams;
  allowed = read_tool ∷ [];
  policy = policy;
}
