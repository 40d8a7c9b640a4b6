-- ===== src/Engine/Status.antt =====
-- The kind of an error does not depend on the prelude or on line numbers, and the outcome of a run
-- depends on nothing but the VM's result and meters.
use proveno_gateway.Prelude.{ℕ, Text, codes, inl, inr, ◌≡◌, refl, sym, ap, ◌∙◌, arith, Result-cases}
use proveno_gateway.Core.{Core, VmError, with_line, gas_exhausted, Run, unlined, SameEnd}
use proveno_gateway.Trace.{RunStatus, finished, error}
use proveno_gateway.Engine.{Tools, error_status, output_json, outcome, at_line, Outcome}

-- `status_kind` of src/replay.rs
unfoldable pub status_kind : RunStatus → Text
status_kind finished = codes "ok"
status_kind (error kind message) = kind

module _ (core : Core) (tools : Tools) where
  kind-at_line :
      (line m : ℕ) (a : RunStatus) → status_kind (at_line core tools line m a) ≡ status_kind a
  unfolding status_kind
  kind-at_line line m finished = refl
  kind-at_line line m (error k t) = refl

  kind-error_status :
      (e : VmError core.LuaValue) (m n : ℕ)
      → status_kind (error_status core tools e m)
        ≡ status_kind (error_status core tools (unlined e) n)
  unfolding error_status status_kind
  kind-error_status (with_line line e) m n =
      kind-at_line line m (error_status core tools e m) ∙ kind-error_status e m n
  kind-error_status gas_exhausted m n = refl
  kind-error_status _ m n = refl

  kind-unlined :
      (e f : VmError core.LuaValue) (m n : ℕ)
      → unlined e ≡ unlined f
      → status_kind (error_status core tools e m) ≡ status_kind (error_status core tools f n)
  kind-unlined e f m n same =
      kind-error_status e m 0
      ∙ ap (λ (x : VmError core.LuaValue). status_kind (error_status core tools x 0)) same
      ∙ sym (kind-error_status f n 0)

  pub record SameOutcome (a b : Outcome core tools) : Type 0 where
    pub output : a.output ≡ b.output
    pub kind : status_kind a.status ≡ status_kind b.status
    pub gas_used : a.gas_used ≡ b.gas_used
    pub memory_used : a.memory_used ≡ b.memory_used

  -- Runs that ended alike but for the line numbers of their errors have the same output, status
  -- kind and meters, wherever the line numbers of their messages are counted from.
  pub outcome-SameOutcome :
      {S T : Type 0} (a : Run core.LuaValue S) (b : Run core.LuaValue T) (max m n : ℕ)
      → SameEnd a b
      → SameOutcome (outcome core tools a max m) (outcome core tools b max n)
  unfolding outcome
  outcome-SameOutcome a b max m n h = elim (Result-cases b.result) [
    | inr (f, bad) ↦ elim (Result-cases a.result) [
      | inl (out, good) ↦ absurd (ground (arith, h.result))
      | inr (e, worse) ↦
          ground (arith, h.gas_used, h.memory_used, kind-unlined e f m n (ground (arith, h.result)))
    ]
    | inl (out, good) ↦ elim (Result-cases a.result) [
      | inr (e, bad) ↦ absurd (ground (arith, h.result))
      | inl (out', fine) ↦ elim (Result-cases (output_json core tools out.return_value max)) [
        | inr (e, g) ↦ ground (arith, h.result, kind-unlined e e m n refl)
        | inl (j, g) ↦ ground (arith, h.result)
      ]
    ]
  ]
