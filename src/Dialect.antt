-- ===== src/Dialect.antt =====
-- src/dialect.rs: the dialect rules, and compiling a program behind its prelude.
mod Rules
pub mod Offsets
use Prim.Native.Nat.{◌%◌}
use Rules.{rule_lines}
use proveno_gateway.Prelude.{
  ℕ, zero, suc, ◌+◌, ◌-◌, leb, Text, String, codes, ◌==◌, starts_with, has_text, ends_with_char,
  count_char, decimal, split_once_at, compact, lines, text_of_lines, Bool, true, false, not, ◌&&◌,
  ◌||◌, Option, none, some, List, [], ◌∷◌, ◌++◌, get_elem?, Result, ok, err, if◌then◌else◌,
}
use proveno_gateway.Core.{
  Core, ParseError, disallowed_ident, float_literal, other_parse, CompileError, unknown_global,
  tool_as_value, indirect_tool_call, other_compile,
}

pub record LintError : Type 0 where
  pub line : ℕ
  pub message : Text

-- What `compile_program` comes to when it has no program: an error, or a panic.
pub data CompileFault : Type 0 where
  lint : LintError → CompileFault
  panic : Text → CompileFault

pub dialect_rules : Text
dialect_rules = text_of_lines rule_lines

-- `n as u32`
unfoldable pub as_u32 : ℕ → ℕ
as_u32 n = n % 4294967296

-- the prelude, with a line end behind it if it is neither empty nor ends in one
unfoldable pub prelude_source : Text → Text
prelude_source [] = []
prelude_source (c ∷ prelude) =
    if ends_with_char b'\n' (c ∷ prelude) then c ∷ prelude else (c ∷ prelude) ++ b'\n' ∷ []

pub prelude_failed : ℕ → Text → Text → Text
prelude_failed line message prelude =
    codes "generated prelude failed to compile at line "
    ++ decimal line
    ++ codes ": "
    ++ message
    ++ codes "\n--- prelude ---\n"
    ++ prelude

abbrev pub parse_line : ParseError → ℕ
parse_line (disallowed_ident name line message) = line
parse_line (float_literal line message) = line
parse_line (other_parse line message) = line

abbrev pub compile_line : CompileError → ℕ
compile_line (unknown_global name line message) = line
compile_line (tool_as_value line message) = line
compile_line (indirect_tool_call line message) = line
compile_line (other_compile line message) = line

is_time_or_random : Text → Bool
is_time_or_random name =
    name == codes "os" || name == codes "io" || name == codes "require" || name == codes "load"

pub parse_message : ParseError → Text
unfolding is_time_or_random
parse_message (disallowed_ident name line message) =
    if is_time_or_random name
    then codes "`" ++ name ++ codes "` is not available; time and randomness are tool calls"
    else message
parse_message (float_literal line message) =
    codes "floats are not supported; use integers or decimal strings"
parse_message (other_parse line message) = message

-- core's own "line N: " is dropped
drop_line_prefix : Text → Text
drop_line_prefix message = elim (split_once_at (codes ": ") message) [
  | none ↦ message
  | some (prefix, rest) ↦ if starts_with prefix (codes "line ") then rest else message
]

pub is_pcall_tool_call : Text → Bool
is_pcall_tool_call line =
    has_text (compact line) (codes "pcall(tool.call,")
    || has_text (compact line) (codes "pcall(tool.call)")

pcall_message : Text
pcall_message =
    codes "`pcall(tool.call, ...)` is not supported; use "
    ++ codes "`pcall(function() return tool.call(name, args) end)`"

abbrev tool_call_message : Text → Text → Text
tool_call_message message source_line =
    if is_pcall_tool_call source_line then pcall_message else drop_line_prefix message

pub compile_message : CompileError → Text → Text
unfolding drop_line_prefix is_pcall_tool_call pcall_message
compile_message (unknown_global name line message) source_line =
    codes "`" ++ name ++ codes "` is not defined; declare it `local`, or check the tool API"
compile_message (tool_as_value line message) source_line = tool_call_message message source_line
compile_message (indirect_tool_call line message) source_line =
    tool_call_message message source_line
compile_message (other_compile line message) source_line = drop_line_prefix message

-- counted from 1; out of range it is empty
pub program_line : Text → ℕ → Text
program_line program zero = []
program_line program (suc i) = elim (get_elem? (lines program) i) [ none ↦ [] | some l ↦ l ]

-- the closure `located`: a line of the prelude is a bug of the gateway
unfoldable pub located : Text → ℕ → ℕ → Text → CompileFault
located prelude offset line message =
    if leb line offset
    then panic (prelude_failed line message prelude)
    else lint (record { line = line - offset; message = message })

pub verification_failed : Text → LintError
verification_failed e = record { line = 0; message = codes "bytecode verification failed: " ++ e }

module _ (core : Core) where
  open core use {Program, Block}

  unfoldable pub verified : Program → Result Program CompileFault
  verified program = elim (core.verify program) [
    | err e ↦ err (lint (verification_failed e))
    | ok _ ↦ ok program
  ]

  unfoldable pub compile_block : Text → Text → ℕ → Block → Result Program CompileFault
  unfolding located verified
  compile_block prelude program offset block = elim (core.compile block) [
    | err e ↦ err (
        located prelude offset (compile_line e)
          (compile_message e (program_line program (compile_line e - offset))))
    | ok compiled ↦ verified compiled
  ]

  unfoldable pub compile_program : Text → Text → Result Program CompileFault
  unfolding located compile_block prelude_source as_u32
  compile_program prelude program =
      let offset = as_u32 (count_char b'\n' (prelude_source prelude)) in
      elim (core.parse (prelude_source prelude ++ program)) [
        | err e ↦ err (located prelude offset (parse_line e) (parse_message e))
        | ok block ↦ compile_block prelude program offset block
      ]
