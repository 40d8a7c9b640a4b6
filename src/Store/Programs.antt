-- ===== src/Store/Programs.antt =====
-- Which programs the store can hold: what is written at a path is what was put there, so a property
-- of all the programs that are put is one of all the programs that are stored.
use mathlib.Core.List.{append_cancel_left, append_cancel_right}
use proveno_gateway.Prelude.{
  ℕ, Text, codes, ◌==◌, eq_iff, last_char, Bool-cases, ◌&&◌, some, Option-cases, List, ◌∷◌, ◌++◌,
  ok, is_ok, Result-cases, subst, sym, ◌∙◌, ap, ◌≡◌, ◌⊎◌, inl, inr, arith,
}
use proveno_gateway.Prelude.Map.{lookup}
use proveno_gateway.Trace.{Trace}
use proveno_gateway.Store.{
  TraceStore, Codec, Faults, Fs, key_path, read_file, with_separator, write_atomic,
  put_content_addressed, put_trace, put_program, put_description,
}
use proveno_gateway.Store.Atomic.{write_atomic_all_or_nothing}
use proveno_gateway.Store.Laws.{last_char-key_path, key_path_stays}
use proveno_gateway.Store.Kept.{IsKept, IsKept-ne-temp, lua_IsKept}

-- Two keys with one path are one key.
key_path_inj :
    (dir a b ext path : Text) → key_path dir a ext ≡ ok path → key_path dir b ext ≡ ok path → a ≡ b
key_path_inj dir a b ext path h k = append_cancel_right a b (b'.' ∷ ext) (
    append_cancel_left (with_separator dir) (a ++ b'.' ∷ ext) (b ++ b'.' ∷ ext)
      (sym (key_path_stays dir a ext path h).0 ∙ (key_path_stays dir b ext path k).0))

-- What a file of the store holds after a write: what was written, or what it held.
write_atomic-cases :
    (dir path : Text) (bytes : List ℕ) (f : Faults) (fs : Fs) (p : Text) (b : List ℕ)
    → IsKept p
    → lookup p (write_atomic dir path bytes f fs).1.files ≡ some b
    → ((path ≡ p) × (bytes ≡ b)) ⊎ (lookup p fs.files ≡ some b)
write_atomic-cases dir path bytes f fs p b kept there =
    let after = write_atomic_all_or_nothing dir path bytes f fs p (IsKept-ne-temp p dir fs kept) in
    elim (Bool-cases (is_ok (write_atomic dir path bytes f fs).0 && path == p)) [
      | inl wrote ↦ inl ((eq_iff path p).0 (ground arith), ground (arith, after))
      | inr not_wrote ↦ inr (ground (arith, after))
    ]

-- What a file ends in tells the kinds of files apart.
abbrev Lua : Text → Type 0
Lua p = last_char p ≡ b'a'

module _ (codec : Codec) where
  put_content-cases :
      (dir path kind key content : Text) (f : Faults) (fs : Fs) (p : Text) (b : List ℕ)
      → IsKept p
      → lookup p (put_content_addressed codec dir path kind key content f fs).1.files ≡ some b
      → ((path ≡ p) × (codec.encode content ≡ b)) ⊎ (lookup p fs.files ≡ some b)
  unfolding put_content_addressed read_file
  put_content-cases dir path kind key content f fs p b kept there = elim (Option-cases f.read) [
    | inr (e, broken) ↦ inr (ground arith)
    | inl readable ↦ elim (Option-cases (lookup path fs.files)) [
      | inr (old, held) ↦ elim (Bool-cases (old == codec.encode content)) [
        | inl same ↦ inr (ground arith)
        | inr other ↦ inr (ground arith)
      ]
      | inl fresh ↦ write_atomic-cases dir path (codec.encode content) f fs p b kept (ground arith)
    ]
  ]

  module _ (store : TraceStore) (f : Faults) (fs : Fs) (p : Text) (b : List ℕ) (lua : Lua p)
      (kept : IsKept p) where
    put_trace-lua :
        (trace : Trace)
        → lookup p (put_trace codec store trace f fs).1.files ≡ some b
        → lookup p fs.files ≡ some b
    unfolding put_trace codes last_char
    put_trace-lua trace there =
        elim (Result-cases (key_path store.traces trace.header.trace_id (codes "json"))) [
          | inr (e, bad) ↦ ground arith
          | inl (path, good) ↦ elim (Option-cases (lookup path fs.files)) [
            | inr (old, held) ↦ ground arith
            | inl fresh ↦
                elim (write_atomic-cases store.traces path (codec.to_vec trace) f fs p b kept
                  (ground arith)) [
                    | inr before ↦ before
                    | inl (same, wrote) ↦ absurd (
                        omega (
                          arith,
                          ap last_char same,
                          last_char-key_path store.traces trace.header.trace_id (codes "json") path
                              good,
                        ))
                  ]
          ]
        ]

    put_description-lua :
        (hash text : Text)
        → lookup p (put_description codec store hash text f fs).1.files ≡ some b
        → lookup p fs.files ≡ some b
    unfolding put_description codes last_char
    put_description-lua hash text there =
        elim (Result-cases (key_path store.descriptions hash (codes "txt"))) [
          | inr (e, bad) ↦ ground arith
          | inl (path, good) ↦
              elim (put_content-cases store.descriptions path (codes "description") hash text f fs p
                b kept (ground arith)) [
                  | inr before ↦ before
                  | inl (same, wrote) ↦ absurd (
                      omega (
                        arith,
                        ap last_char same,
                        last_char-key_path store.descriptions hash (codes "txt") path good,
                      ))
                ]
        ]

-- Every program of the store has this property, of its hash and its bytes.
abbrev pub AllPrograms : (Text → List ℕ → Type 0) → TraceStore → Fs → Type 0
AllPrograms P store fs =
    (hash path : Text) (bytes : List ℕ)
    → key_path store.programs hash (codes "lua") ≡ ok path
    → lookup path fs.files ≡ some bytes
    → P hash bytes

module _ (codec : Codec) (store : TraceStore) (f : Faults) (fs : Fs) (P : Text → List ℕ → Type 0)
    (all : AllPrograms P store fs) where
  key_path-Lua :
      (hash path : Text) → key_path store.programs hash (codes "lua") ≡ ok path → Lua path
  unfolding codes last_char
  key_path-Lua hash path h =
      omega (arith, last_char-key_path store.programs hash (codes "lua") path h)

  pub put_trace-AllPrograms :
      (trace : Trace) → AllPrograms P store (put_trace codec store trace f fs).1
  put_trace-AllPrograms trace hash path bytes good there = all hash path bytes good (
      put_trace-lua codec store f fs path bytes (key_path-Lua hash path good)
        (lua_IsKept store.programs hash path good) trace there)

  pub put_description-AllPrograms :
      (of text : Text) → AllPrograms P store (put_description codec store of text f fs).1
  put_description-AllPrograms of text hash path bytes good there = all hash path bytes good (
      put_description-lua codec store f fs path bytes (key_path-Lua hash path good)
        (lua_IsKept store.programs hash path good) of text there)

  pub put_program-AllPrograms :
      (new source : Text)
      → P new (codec.encode source)
      → AllPrograms P store (put_program codec store new source f fs).1
  unfolding put_program
  put_program-AllPrograms new source holds hash path bytes good there =
      elim (Result-cases (key_path store.programs new (codes "lua"))) [
        | inr (e, bad) ↦ all hash path bytes good (ground arith)
        | inl (target, fits) ↦
            elim (put_content-cases codec store.programs target (codes "program") new source f fs
              path bytes (lua_IsKept store.programs hash path good) (ground arith)) [
                | inr before ↦ all hash path bytes good before
                | inl (same, wrote) ↦ subst (P hash) wrote (
                    subst (λ (h : Text). P h (codec.encode source))
                      (key_path_inj store.programs new hash (codes "lua") path (fits ∙ ap ok same)
                        good)
                      holds)
              ]
      ]
