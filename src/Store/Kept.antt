-- ===== src/Store/Kept.antt =====
-- The store only grows, and gives back what was put.
use proveno_gateway.Prelude.{
  ℕ, ◌<◌, Text, codes, eq_iff, eq_refl, last_char, none, some, Option-cases, List, ok, err,
  Result-cases, ◌≡◌, ◌≢◌, ap, inl, inr, arith,
}
use proveno_gateway.Prelude.Map.{lookup}
use proveno_gateway.Trace.{Trace}
use proveno_gateway.Store.{
  trace_exists, TraceStore, Codec, Faults, Fs, join_path, key_path, temp_name, read_file, read,
  write_atomic, put_content_addressed, put_trace, put_program, put_description, get_trace,
  get_program,
}
use proveno_gateway.Store.Atomic.{write_atomic_all_or_nothing}
use proveno_gateway.Store.Laws.{last_char-key_path, last_char-temp}

-- A temp file's name ends in a digit; a file of the store does not.
abbrev pub IsKept : Text → Type 0
IsKept path = 57 < last_char path

pub IsKept-ne-temp : (p dir : Text) (fs : Fs) → IsKept p → p ≢ join_path dir (temp_name fs)
IsKept-ne-temp p dir fs h e = omega (arith, ap last_char e, last_char-temp dir fs)

-- Every file of the store has the content that it had.
abbrev pub Keeps : Fs → Fs → Type 0
Keeps a b =
    (p : Text) (bytes : List ℕ)
    → IsKept p
    → lookup p a.files ≡ some bytes
    → lookup p b.files ≡ some bytes

write_atomic-Keeps :
    (dir path : Text) (bytes : List ℕ) (f : Faults) (fs : Fs)
    → lookup path fs.files ≡ none
    → Keeps fs (write_atomic dir path bytes f fs).1
write_atomic-Keeps dir path bytes f fs fresh p old kept had = ground (
  arith,
  write_atomic_all_or_nothing dir path bytes f fs p (IsKept-ne-temp p dir fs kept),
  eq_iff path p,
)

-- A write that succeeded leaves the whole content at its path.
pub write_atomic-lookup :
    (dir path : Text) (bytes : List ℕ) (f : Faults) (fs : Fs)
    → IsKept path
    → (write_atomic dir path bytes f fs).0 ≡ ok tt
    → lookup path (write_atomic dir path bytes f fs).1.files ≡ some bytes
write_atomic-lookup dir path bytes f fs kept good = ground (
  arith,
  write_atomic_all_or_nothing dir path bytes f fs path (IsKept-ne-temp path dir fs kept),
  eq_refl path,
)

module _ (codec : Codec) where
  put_content-Keeps :
      (dir path kind key content : Text) (f : Faults) (fs : Fs)
      → Keeps fs (put_content_addressed codec dir path kind key content f fs).1
  unfolding put_content_addressed read_file
  put_content-Keeps dir path kind key content f fs p old kept had =
      elim (Option-cases (lookup path fs.files)) [
        | inl fresh ↦
            ground
              (arith, write_atomic-Keeps dir path (codec.encode content) f fs fresh p old kept had)
        | inr (b, there) ↦ ground arith
      ]

  pub put_content-lookup :
      (dir path kind key content : Text) (f : Faults) (fs : Fs)
      → IsKept path
      → (put_content_addressed codec dir path kind key content f fs).0 ≡ ok tt
      → lookup path (put_content_addressed codec dir path kind key content f fs).1.files
        ≡ some (codec.encode content)
  unfolding put_content_addressed read_file
  put_content-lookup dir path kind key content f fs kept good = elim (Option-cases f.read) [
    | inr (e, broken) ↦ absurd (ground arith)
    | inl readable ↦ elim (Option-cases (lookup path fs.files)) [
      | inl fresh ↦ ground (arith, write_atomic-lookup dir path (codec.encode content) f fs kept)
      | inr (b, there) ↦ ground (arith, eq_iff b (codec.encode content))
    ]
  ]

  module _ (store : TraceStore) (f : Faults) (fs : Fs) where
    -- No operation changes a file that is there: whatever the system refuses, every file of the
    -- store has after a put the content that it had.
    pub put_trace-Keeps : (trace : Trace) → Keeps fs (put_trace codec store trace f fs).1
    unfolding put_trace
    put_trace-Keeps trace p old kept had =
        elim (Result-cases (key_path store.traces trace.header.trace_id (codes "json"))) [
          | inr (e, bad) ↦ ground arith
          | inl (path, good) ↦ elim (Option-cases (lookup path fs.files)) [
            | inl fresh ↦ ground (
              arith,
              write_atomic-Keeps store.traces path (codec.to_vec trace) f fs fresh p old kept had,
            )
            | inr (b, there) ↦ ground arith
          ]
        ]

    pub put_program-Keeps :
        (hash source : Text) → Keeps fs (put_program codec store hash source f fs).1
    unfolding put_program
    put_program-Keeps hash source p old kept had =
        elim (Result-cases (key_path store.programs hash (codes "lua"))) [
          | inr (e, bad) ↦ ground arith
          | inl (path, good) ↦ ground (
            arith,
            put_content-Keeps store.programs path (codes "program") hash source f fs p old kept had,
          )
        ]

    pub put_description-Keeps :
        (hash text : Text) → Keeps fs (put_description codec store hash text f fs).1
    unfolding put_description
    put_description-Keeps hash text p old kept had =
        elim (Result-cases (key_path store.descriptions hash (codes "txt"))) [
          | inr (e, bad) ↦ ground arith
          | inl (path, good) ↦ ground (
            arith,
            put_content-Keeps store.descriptions path (codes "description") hash text f fs p old
                kept had,
          )
        ]

pub json_IsKept : (dir key path : Text) → key_path dir key (codes "json") ≡ ok path → IsKept path
unfolding codes last_char
json_IsKept dir key path h = omega (arith, last_char-key_path dir key (codes "json") path h)

pub lua_IsKept : (dir key path : Text) → key_path dir key (codes "lua") ≡ ok path → IsKept path
unfolding codes last_char
lua_IsKept dir key path h = omega (arith, last_char-key_path dir key (codes "lua") path h)

-- What a put wrote is read back from any later state that keeps it.
pub get_program_later :
    (codec : Codec) (store : TraceStore) (f g : Faults) (fs later : Fs) (hash source : Text)
    → codec.decode (codec.encode source) ≡ some source
    → (put_program codec store hash source f fs).0 ≡ ok tt
    → Keeps (put_program codec store hash source f fs).1 later
    → g.read ≡ none
    → get_program codec store hash g later ≡ ok source
unfolding put_program get_program read read_file
get_program_later codec store f g fs later hash source utf8 done keeps readable =
    elim (Result-cases (key_path store.programs hash (codes "lua"))) [
      | inr (e, bad) ↦ absurd (ground arith)
      | inl (path, good) ↦
          let kept = lua_IsKept store.programs hash path good in
          ground (
            arith,
            keeps path (codec.encode source) kept,
            put_content-lookup codec store.programs path (codes "program") hash source f fs kept,
          )
    ]

-- A trace that was stored is read back, and storing one under its id again is refused and changes
-- nothing.
pub get_trace-put_trace :
    (codec : Codec) (store : TraceStore) (f g : Faults) (fs : Fs) (trace : Trace)
    → codec.from_slice (codec.to_vec trace) ≡ ok trace
    → (put_trace codec store trace f fs).0 ≡ ok tt
    → g.read ≡ none
    → (get_trace codec store trace.header.trace_id g (put_trace codec store trace f fs).1
        ≡ ok trace)
      × ((again : Trace)
          → again.header.trace_id ≡ trace.header.trace_id
          → put_trace codec store again g (put_trace codec store trace f fs).1
            ≡ (err (trace_exists trace.header.trace_id), (put_trace codec store trace f fs).1))
unfolding put_trace get_trace read read_file
get_trace-put_trace codec store f g fs trace json done readable =
    elim (Result-cases (key_path store.traces trace.header.trace_id (codes "json"))) [
      | inr (e, bad) ↦ absurd (ground arith)
      | inl (path, good) ↦
          let kept = json_IsKept store.traces trace.header.trace_id path good in
          let wrote = write_atomic-lookup store.traces path (codec.to_vec trace) f fs kept in
          (ground (arith, wrote), λ again same. ground (arith, wrote))
    ]
