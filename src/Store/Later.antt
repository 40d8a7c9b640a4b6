-- ===== src/Store/Later.antt =====
-- What was put is there in every later state of the store.
use proveno_gateway.Prelude.{
  ℕ, Text, codes, none, some, Option-cases, Bool-cases, List, ok, err, Result-cases, ◌≡◌, ◌≢◌, ◌⊎◌,
  inl, inr, arith,
}
use proveno_gateway.Prelude.Map.{lookup}
use proveno_gateway.Trace.{Trace}
use proveno_gateway.Store.{
  conflict, TraceStore, Codec, Faults, Fs, is_valid_key, join_path, key_path, temp_name, read_file,
  read, write_steps, write_atomic, put_content_addressed, put_trace, put_program, get_trace,
  get_program,
}
use proveno_gateway.Store.Kept.{
  Keeps, json_IsKept, lua_IsKept, write_atomic-lookup, put_content-lookup, put_program-Keeps,
}

pub get_trace_later :
    (codec : Codec) (store : TraceStore) (f g : Faults) (fs later : Fs) (trace : Trace)
    → codec.from_slice (codec.to_vec trace) ≡ ok trace
    → (put_trace codec store trace f fs).0 ≡ ok tt
    → Keeps (put_trace codec store trace f fs).1 later
    → g.read ≡ none
    → get_trace codec store trace.header.trace_id g later ≡ ok trace
unfolding put_trace get_trace read read_file
get_trace_later codec store f g fs later trace json done keeps readable =
    elim (Result-cases (key_path store.traces trace.header.trace_id (codes "json"))) [
      | inr (e, bad) ↦ absurd (ground arith)
      | inl (path, good) ↦
          let kept = json_IsKept store.traces trace.header.trace_id path good in
          ground (
            arith,
            keeps path (codec.to_vec trace) kept,
            write_atomic-lookup store.traces path (codec.to_vec trace) f fs kept,
          )
    ]

write_atomic-ne-conflict :
    (dir path : Text) (bytes : List ℕ) (f : Faults) (fs : Fs) (kind key : Text)
    → (write_atomic dir path bytes f fs).0 ≢ err (conflict kind key)
unfolding write_atomic
write_atomic-ne-conflict dir path bytes f fs kind key h =
    elim (Result-cases (write_steps fs.files (join_path dir (temp_name fs)) path bytes f).0) [
      | inl (u, good) ↦ absurd (ground arith)
      | inr (e, bad) ↦ absurd (ground arith)
    ]

key_path-ne-conflict :
    (dir name ext kind key : Text) → key_path dir name ext ≢ err (conflict kind key)
unfolding key_path
key_path-ne-conflict dir name ext kind key h = elim (Bool-cases (is_valid_key name)) [
  | inl good ↦ absurd (ground arith)
  | inr bad ↦ absurd (ground arith)
]

-- After a program was put, or was in conflict, its file is there, and still is in any later state
-- that keeps it.
pub program_file-there :
    (codec : Codec) (store : TraceStore) (f : Faults) (fs later : Fs) (hash source : Text)
    → ((put_program codec store hash source f fs).0 ≡ ok tt)
      ⊎ ((kind key : Text) × ((put_program codec store hash source f fs).0
            ≡ err (conflict kind key)))
    → Keeps (put_program codec store hash source f fs).1 later
    → (path : Text) × (bytes : List ℕ) × (key_path store.programs hash (codes "lua") ≡ ok path)
      × (lookup path later.files ≡ some bytes)
unfolding put_program put_content_addressed read_file
program_file-there codec store f fs later hash source done keeps =
    elim (Result-cases (key_path store.programs hash (codes "lua"))) [
      | inr (e, bad) ↦ absurd (elim done [
        | inl put ↦ ground arith
        | inr (kind, key, c) ↦
            key_path-ne-conflict store.programs hash (codes "lua") kind key (ground arith)
      ])
      | inl (path, good) ↦
          let kept = lua_IsKept store.programs hash path good in
          elim (Option-cases (lookup path fs.files)) [
            | inr (b, there) ↦ (
              path,
              b,
              good,
              keeps path b kept (put_program-Keeps codec store f fs hash source path b kept there),
            )
            | inl fresh ↦
                let wrote =
                  write_atomic-lookup store.programs path (codec.encode source) f fs kept in
                elim done [
                  | inl put ↦ (
                    path,
                    codec.encode source,
                    good,
                    keeps path (codec.encode source) kept (
                        ground (
                          arith,
                          put_content-lookup codec store.programs path (codes "program") hash source
                              f fs kept,
                        )),
                  )
                  | inr (kind, key, c) ↦ absurd (
                      ground (
                        arith,
                        write_atomic-ne-conflict store.programs path (codec.encode source) f fs kind
                            key,
                      ))
                ]
          ]
    ]

-- What is there is read.
pub get_program-there :
    (codec : Codec) (store : TraceStore) (g : Faults) (fs : Fs) (hash path : Text) (bytes : List ℕ)
    (source : Text)
    → key_path store.programs hash (codes "lua") ≡ ok path
    → lookup path fs.files ≡ some bytes
    → codec.decode bytes ≡ some source
    → g.read ≡ none
    → get_program codec store hash g fs ≡ ok source
unfolding get_program read read_file
get_program-there codec store g fs hash path bytes source good there utf8 readable = ground arith
