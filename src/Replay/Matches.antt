-- ===== src/Replay/Matches.antt =====
-- When a replay matches.
use proveno_gateway.Prelude.{
  nat_eq, Text, ◌==◌, eq_iff, Bool, true, false, ◌&&◌, Option, none, some, List, [], ◌∷◌, ◌++◌, ◌≡◌,
  ◌↔◌, refl, arith,
}
use proveno_gateway.Core.{Core, Run, Divergence}
use proveno_gateway.Trace.{Trace, TraceFooter, Crypto}
use proveno_gateway.Store.{Codec}
use proveno_gateway.Engine.{Tools, Outcome, outcome}
use proveno_gateway.Engine.Status.{status_kind}
use proveno_gateway.Replay.{option_eq, unless, no_mismatch, compare_footer, mismatches_of, diverged}

no_mismatch-append :
    (xs ys : List Text) → no_mismatch (xs ++ ys) ≡ (no_mismatch xs && no_mismatch ys)
no_mismatch-append [] ys = refl
no_mismatch-append (x ∷ xs) ys = refl

no_mismatch-unless : (b : Bool) (m : Text) → no_mismatch (unless b m) ≡ b
no_mismatch-unless true m = refl
no_mismatch-unless false m = refl

option_eq_iff : (a b : Option Text) → (option_eq a b ≡ true) ↔ (a ≡ b)
option_eq_iff none none = ground arith
option_eq_iff none (some b) = ground arith
option_eq_iff (some a) none = ground arith
option_eq_iff (some a) (some b) = ground (arith, eq_iff a b)

-- The replayed outcome is the recorded one: the output, the kind of the status, the gas and the
-- memory.
pub record AsRecorded {core : Core} {tools : Tools} (out : Outcome core tools)
    (footer : TraceFooter) : Type 0 where
  pub output : out.output ≡ footer.output
  pub kind : status_kind out.status ≡ status_kind footer.status
  pub gas_used : out.gas_used ≡ footer.gas_used
  pub memory_used : out.memory_used ≡ footer.memory_used

module _ {core : Core} {tools : Tools} (out : Outcome core tools) (footer : TraceFooter) where
  abbrev footer_test : Bool
  footer_test =
      option_eq out.output footer.output
      && (status_kind out.status == status_kind footer.status
          && (nat_eq out.gas_used footer.gas_used && nat_eq out.memory_used footer.memory_used))

  no_mismatch-compare : no_mismatch (compare_footer out footer) ≡ footer_test
  unfolding compare_footer
  no_mismatch-compare = simp (no_mismatch-append, no_mismatch-unless)

  footer_test_iff : (footer_test ≡ true) ↔ AsRecorded out footer
  footer_test_iff = (
    λ h. record {
      output = ground (arith, option_eq_iff out.output footer.output);
      kind = ground (arith, eq_iff (status_kind out.status) (status_kind footer.status));
      gas_used = ground arith;
      memory_used = ground arith;
    },
    λ r. ground (
      arith,
      r.output,
      r.kind,
      r.gas_used,
      r.memory_used,
      option_eq_iff out.output footer.output,
      eq_iff (status_kind out.status) (status_kind footer.status),
    ),
  )

module _ (core : Core) (crypto : Crypto) (codec : Codec) (tools : Tools) where
  no_mismatch-diverged :
      (d : Option Divergence) → (no_mismatch (diverged tools d) ≡ true) ↔ (d ≡ none)
  no_mismatch-diverged none = ground arith
  no_mismatch-diverged (some d) = ground arith

  -- A replay has no mismatch exactly if the source compiles to the recorded program hash, the run
  -- never diverged from the tape and used it up, and its outcome is the recorded one.
  pub no_mismatch_iff :
      (trace : Trace) (hash : Text) (run : Run core.LuaValue core.TapeHost)
      → (no_mismatch (mismatches_of core crypto codec tools trace hash run) ≡ true) ↔ (
          (hash ≡ trace.header.program_hash)
          × (core.divergence run.host ≡ none)
          × (core.remaining run.host ≡ 0)
          × AsRecorded
              (outcome core tools run trace.header.vm_config.max_output_bytes 0)
              trace.footer)
  unfolding mismatches_of
  no_mismatch_iff trace hash run =
      let out = outcome core tools run trace.header.vm_config.max_output_bytes 0 in
      simp (no_mismatch-append, no_mismatch-unless)
        (
          λ h. (
            ground (arith, eq_iff hash trace.header.program_hash),
            (no_mismatch-diverged (core.divergence run.host)).0 (ground arith),
            ground arith,
            (footer_test_iff out trace.footer).0
                (ground (arith, no_mismatch-compare out trace.footer)),
          ),
          λ (same, straight, used, equal). ground (
            arith,
            eq_iff hash trace.header.program_hash,
            (no_mismatch-diverged (core.divergence run.host)).1 straight,
            no_mismatch-compare out trace.footer,
            (footer_test_iff out trace.footer).1 equal,
          ),
        )
