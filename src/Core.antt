-- ===== src/Core.antt =====
-- What the gateway uses of proveno-core (the Lua compiler and VM), which is not in this
-- repository: an interface of operations, and what the gateway relies on, as predicates on it.
use proveno_gateway.Prelude.{
  ℕ, ℤ, Text, Bool, Option, none, some, List, [], ◌∷◌, Result, ok, err, map_err, ◌≡◌,
}

pub data VmError (V : Type 0) : Type 0 where
  with_line : ℕ → VmError V → VmError V
  gas_exhausted memory_exhausted call_depth_exceeded : VmError V
  type_error : Text → VmError V
  runtime_error : V → VmError V
  tool_error : Text → VmError V
  output_exceeded : VmError V

-- The variants that the gateway tells apart; each carries its line and its message.
pub data ParseError : Type 0 where
  disallowed_ident : (name : Text) (line : ℕ) (message : Text) → ParseError
  float_literal : (line : ℕ) (message : Text) → ParseError
  other_parse : (line : ℕ) (message : Text) → ParseError

pub data CompileError : Type 0 where
  unknown_global : (name : Text) (line : ℕ) (message : Text) → CompileError
  tool_as_value : (line : ℕ) (message : Text) → CompileError
  indirect_tool_call : (line : ℕ) (message : Text) → CompileError
  other_compile : (line : ℕ) (message : Text) → CompileError

pub data ToolCallStatus : Type 0 where
  ok_call error_call : ToolCallStatus

pub record ToolCallRecord : Type 0 where
  pub seq : ℕ
  pub tool_name : Text
  pub args_canonical : List ℕ
  pub args_bytes : ℕ
  pub response_hash : Text
  pub response_bytes : ℕ
  pub response_canonical : List ℕ
  pub error_message : Text
  pub attestation : List ℕ
  pub gas_charged : ℕ
  pub status : ToolCallStatus

pub record VmConfig : Type 0 where
  pub gas_limit : ℕ
  pub memory_limit_bytes : ℕ
  pub max_call_depth : ℕ
  pub max_tool_calls : ℕ
  pub max_tool_bytes_in : ℕ
  pub max_tool_bytes_out : ℕ
  pub max_output_bytes : ℕ
  pub record_trace : Bool

pub data LuaKey : Type 0 where
  string_key : Text → LuaKey
  integer_key : ℤ → LuaKey

pub record HostInterface (S T : Type 0) : Type 0 where
  pub call_tool : S → Text → T → Result T Text × S
  pub take_attestation : S → Option (List ℕ) × S

pub record TapeCall : Type 0 where
  pub tool_name : Text
  pub args_canonical : List ℕ

pub record Divergence : Type 0 where
  pub seq : ℕ
  pub expected : Option TapeCall
  pub actual : TapeCall

pub record ExecOutput (V : Type 0) : Type 0 where
  pub return_value : V
  pub gas_used : ℕ
  pub memory_used : ℕ

-- The VM after `execute`: what the call returned, and what the VM answers then.
pub record Run (V S : Type 0) : Type 0 where
  pub result : Result (ExecOutput V) (VmError V)
  pub gas_used : ℕ
  pub memory_used : ℕ
  pub transcript : List ToolCallRecord
  pub host : S

pub record Core : Type 1 where
  pub Table : Type 0
  pub LuaValue : Type 0
  pub Block : Type 0
  pub Program : Type 0
  pub TapeHost : Type 0
  pub nil : LuaValue
  pub boolean : Bool → LuaValue
  pub integer : ℤ → LuaValue
  pub string : Text → LuaValue
  pub table : Table → LuaValue
  -- the text of a string value
  pub as_string : LuaValue → Option Text
  pub new_table : Table
  pub rawset : Table → LuaKey → LuaValue → Result Table Text
  pub canonical_serialize_table : Table → Result (List ℕ) Text
  pub canonical_serialize : LuaValue → Result (List ℕ) (VmError LuaValue)
  -- the `{:?}` form of a value
  pub debug_value : LuaValue → Text
  pub parse : Text → Result Block ParseError
  pub compile : Block → Result Program CompileError
  pub verify : Program → Result (Unit {0}) Text
  pub program_hash : Program → List ℕ
  pub execute : {S : Type 0} → HostInterface S Table → VmConfig → Program → S → Run LuaValue S
  -- `TapeHost::strict(OracleTape::from_records(records))`
  pub strict_tape : List ToolCallRecord → TapeHost
  pub tape_host : HostInterface TapeHost Table
  pub divergence : TapeHost → Option Divergence
  pub remaining : TapeHost → ℕ

abbrev pub blob : Option (List ℕ) → List ℕ
blob none = []
blob (some b) = b

-- How a run drives its host: a call that returned is recorded once its response is canonicalised,
-- and its attestation is taken straight after it; a call that failed is recorded with its message;
-- a response that cannot be canonicalised leaves the call out of the transcript.
module _ {S T : Type 0} (serialize : T → Result (List ℕ) Text) (h : HostInterface S T) where
  pub data Calls : S → List ToolCallRecord → S → Type 0 where
    done : {s : S} → Calls s [] s
    returned :
        {s u : S} {rs : List ToolCallRecord} (r : ToolCallRecord) (args answer : T) (s1 s2 : S)
        (attestation : Option (List ℕ)) (canonical : List ℕ)
        → h.call_tool s r.tool_name args ≡ (ok answer, s1)
        → serialize answer ≡ ok canonical
        → h.take_attestation s1 ≡ (attestation, s2)
        → r.status ≡ ok_call
        → r.response_canonical ≡ canonical
        → r.attestation ≡ blob attestation
        → Calls s2 rs u
        → Calls s (r ∷ rs) u
    failed :
        {s u : S} {rs : List ToolCallRecord} (r : ToolCallRecord) (args : T) (message : Text)
        (s1 : S)
        → h.call_tool s r.tool_name args ≡ (err message, s1)
        → r.status ≡ error_call
        → r.error_message ≡ message
        → r.attestation ≡ []
        → Calls s1 rs u
        → Calls s (r ∷ rs) u
    unrecorded :
        {s u : S} {rs : List ToolCallRecord} (name : Text) (args answer : T) (s1 : S) (e : Text)
        → h.call_tool s name args ≡ (ok answer, s1)
        → serialize answer ≡ err e
        → Calls s1 rs u
        → Calls s rs u

-- The transcript is what the host saw.
pub record RecordsCalls (core : Core) : Type 1 where
  pub calls :
      {S : Type 0} (h : HostInterface S core.Table) (config : VmConfig) (program : core.Program)
      (s : S)
      → Calls core.canonical_serialize_table h s
          (core.execute h config program s).transcript
          (core.execute h config program s).host

-- Every answer of the host can be canonicalised, so that the VM records it.
abbrev pub Recordable : (core : Core) {S : Type 0} → HostInterface S core.Table → Type 0
Recordable core {S} h =
    (s s1 : S) (name : Text) (args answer : core.Table)
    → h.call_tool s name args ≡ (ok answer, s1)
    → (canonical : List ℕ) × (core.canonical_serialize_table answer ≡ ok canonical)

-- The VM is deterministic: over a strict tape of the calls that a run recorded, the same program
-- with the same limits gives the same result and meters, and uses the tape up with no divergence,
-- if no answer was left out of the records.
pub record ReplaysRuns (core : Core) : Type 1 where
  pub same :
      {S : Type 0} (h : HostInterface S core.Table) (config : VmConfig) (program : core.Program)
      (s : S)
      → Recordable core h
      → record {
        result :
            (core.execute core.tape_host config program
              (core.strict_tape (core.execute h config program s).transcript)).result
            ≡ (core.execute h config program s).result;
        gas_used :
            (core.execute core.tape_host config program
              (core.strict_tape (core.execute h config program s).transcript)).gas_used
            ≡ (core.execute h config program s).gas_used;
        memory_used :
            (core.execute core.tape_host config program
              (core.strict_tape (core.execute h config program s).transcript)).memory_used
            ≡ (core.execute h config program s).memory_used;
        divergence :
            core.divergence
              (core.execute core.tape_host config program
                (core.strict_tape (core.execute h config program s).transcript)).host
            ≡ none;
        remaining :
            core.remaining
              (core.execute core.tape_host config program
                (core.strict_tape (core.execute h config program s).transcript)).host
            ≡ 0;
      }

-- An error without the line numbers around it.
abbrev pub unlined : {V : Type 0} → VmError V → VmError V
unlined (with_line line e) = unlined e
unlined e = e

-- Two runs, perhaps over different hosts, that ended alike but for the line numbers of an error.
pub record SameEnd {V S T : Type 0} (a : Run V S) (b : Run V T) : Type 0 where
  pub result : map_err unlined a.result ≡ map_err unlined b.result
  pub gas_used : a.gas_used ≡ b.gas_used
  pub memory_used : a.memory_used ≡ b.memory_used

-- The hash of a program covers its bytecode, and not its line numbers: programs of one hash make
-- the same calls and end alike.
pub record HashFixesRuns (core : Core) : Type 1 where
  pub end :
      {S : Type 0} (h : HostInterface S core.Table) (config : VmConfig) (p q : core.Program) (s : S)
      → core.program_hash p ≡ core.program_hash q
      → SameEnd (core.execute h config p s) (core.execute h config q s)
  pub host :
      {S : Type 0} (h : HostInterface S core.Table) (config : VmConfig) (p q : core.Program) (s : S)
      → core.program_hash p ≡ core.program_hash q
      → (core.execute h config p s).host ≡ (core.execute h config q s).host
