-- ===== src/Dialect/Offsets.antt =====
-- Compiling and recompiling agree, and the lines that are reported are the program's own.
use proveno_gateway.Prelude.{
  ℕ, ◌+◌, ◌<◌, leb, Text, Bool-cases, count_char, ok, err, Result-cases, ◌≡◌, refl, ◌⊎◌, inl, inr,
  ◌++◌, arith,
}
use proveno_gateway.Core.{Core, ParseError, CompileError}
use proveno_gateway.Dialect.{
  LintError, lint, compile_program, prelude_source, as_u32, parse_line, compile_line,
  verification_failed,
}

module _ (core : Core) (prelude program : Text) where
  abbrev pub offset : ℕ
  offset = as_u32 (count_char b'\n' (prelude_source prelude))

  -- A program that compiles is core's program for the prelude's source and the text behind it, and
  -- core has verified it.
  pub compile_program-eq-ok :
      (p : core.Program)
      → compile_program core prelude program ≡ ok p
      → (block : core.Block) × (core.parse (prelude_source prelude ++ program) ≡ ok block)
        × (core.compile block ≡ ok p)
        × (core.verify p ≡ ok tt)
  unfolding compile_program
  compile_program-eq-ok p h = elim (Result-cases (core.parse (prelude_source prelude ++ program))) [
    | inr (e, bad) ↦ absurd (ground arith)
    | inl (block, e) ↦ elim (Result-cases (core.compile block)) [
      | inr (x, bad) ↦ absurd (ground arith)
      | inl (q, f) ↦ elim (Result-cases (core.verify q)) [
        | inr (x, bad) ↦ absurd (ground arith)
        | inl (u, g) ↦ (block, ground arith, ground arith, ground arith)
      ]
    ]
  ]

  -- Core rejects the source and names this line.
  abbrev pub RejectedAt : ℕ → Type 0
  RejectedAt line =
      ((e : ParseError) × (core.parse (prelude_source prelude ++ program) ≡ err e)
        × (parse_line e ≡ line))
      ⊎ (block : core.Block) × (e : CompileError) × (core.parse (prelude_source prelude ++ program)
          ≡ ok block)
        × (core.compile block ≡ err e)
        × (compile_line e ≡ line)

  -- Core compiles the source and its verifier refuses what it compiled.
  abbrev pub RejectedByVerifier : LintError → Type 0
  RejectedByVerifier e =
      (block : core.Block) × (p : core.Program) × (m : Text) × (core.parse
          (prelude_source prelude ++ program)
        ≡ ok block)
      × (core.compile block ≡ ok p)
      × (core.verify p ≡ err m)
      × (e ≡ verification_failed m)

  -- A lint error is either that of core's verifier, which names no line, or core's own line in the
  -- source less the lines of the prelude, which are fewer: so it is a line of the program, counted
  -- from 1.
  pub compile_program-lint :
      (e : LintError)
      → compile_program core prelude program ≡ err (lint e)
      → RejectedByVerifier e
        ⊎ (line : ℕ) × (offset < line) × (e.line + offset ≡ line) × (RejectedAt line)
  unfolding compile_program verification_failed
  compile_program-lint e h = elim (Result-cases (core.parse (prelude_source prelude ++ program))) [
    | inr (x, bad) ↦ elim (Bool-cases (leb (parse_line x) offset)) [
      | inl low ↦ absurd (ground arith)
      | inr high ↦ inr (parse_line x, ground arith, ground arith, inl (x, bad, refl))
    ]
    | inl (block, f) ↦ elim (Result-cases (core.compile block)) [
      | inr (x, bad) ↦ elim (Bool-cases (leb (compile_line x) offset)) [
        | inl low ↦ absurd (ground arith)
        | inr high ↦ inr (compile_line x, ground arith, ground arith, inr (block, x, f, bad, refl))
      ]
      | inl (q, g) ↦ elim (Result-cases (core.verify q)) [
        | inr (x, bad) ↦ inl (block, q, x, f, g, bad, ground arith)
        | inl (u, k) ↦ absurd (ground arith)
      ]
    ]
  ]
