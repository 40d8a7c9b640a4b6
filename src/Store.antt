-- ===== src/Store.antt =====
-- src/store.rs: the append-only trace store, and programs and descriptions by hash.
-- The file system is the map of the files there are, by their paths. What the operating system may
-- refuse at each step is an argument of the operation, `Faults`; other processes are not modelled.
mod Keys
pub mod Atomic
pub mod Laws
pub mod Kept
pub mod Later
pub mod Programs
unfoldable pub use Keys.*
use proveno_gateway.Prelude.{
  ℕ, suc, decimal, Text, codes, ◌==◌, Bool, true, false, Option, none, some, is_some, List, [], ◌∷◌,
  ◌++◌, Result, ok, err, ◌>>=◌, map_err, if◌then◌else◌,
}
use proveno_gateway.Prelude.Map.{lookup, insert, remove}
use proveno_gateway.Trace.{Trace}

-- What the store uses of the libraries: UTF-8, and serde_json for a trace.
pub record Codec : Type 0 where
  pub encode : Text → List ℕ
  pub decode : List ℕ → Option Text
  pub to_vec : Trace → List ℕ
  pub from_slice : List ℕ → Result Trace Text

-- The steps that the system refuses in one operation, with the message of the error. A refused
-- write may have written `partial`; `stuck` says that the temp file cannot be removed.
pub record Faults : Type 0 where
  pub read : Option Text
  pub create : Option Text
  pub write : Option Text
  pub sync : Option Text
  pub rename : Option Text
  pub partial : List ℕ
  pub stuck : Bool

abbrev pub no_faults : Faults
no_faults = record {
  read = none;
  create = none;
  write = none;
  sync = none;
  rename = none;
  partial = [];
  stuck = false;
}

abbrev pub Files : Type 0
Files = List (Text × List ℕ)

-- The files, the process id and `COUNTER`.
pub record Fs : Type 0 where
  pub files : Files
  pub pid : ℕ
  pub counter : ℕ

pub temp_name : Fs → Text
temp_name fs = codes ".tmp-" ++ decimal fs.pid ++ codes "-" ++ decimal fs.counter

already_exists : Text
already_exists = codes "File exists"

not_utf8 : Text
not_utf8 = codes "stream did not contain valid UTF-8"

not_found : Text
not_found = codes "No such file or directory"

-- the closure of `write_atomic`: create, write, sync, rename
abbrev renamed : Files → Text → Text → List ℕ → Faults → Result (Unit {0}) Text × Files
renamed files tmp path bytes f = elim f.rename [
  | some e ↦ (err e, insert tmp bytes files)
  | none ↦ (ok tt, insert path bytes (remove tmp files))
]

abbrev written : Files → Text → Text → List ℕ → Faults → Result (Unit {0}) Text × Files
written files tmp path bytes f = elim f.write [
  | some e ↦ (err e, insert tmp f.partial files)
  | none ↦ elim f.sync [
    | some e ↦ (err e, insert tmp bytes files)
    | none ↦ renamed files tmp path bytes f
  ]
]

pub write_steps : Files → Text → Text → List ℕ → Faults → Result (Unit {0}) Text × Files
unfolding already_exists
write_steps files tmp path bytes f =
    if is_some (lookup tmp files)
    then (err already_exists, files)
    else elim f.create [ some e ↦ (err e, files) | none ↦ written files tmp path bytes f ]

-- `if result.is_err() { let _ = fs::remove_file(&tmp); }`
abbrev pub cleaned : Result (Unit {0}) Text → Files → Text → Bool → Files
cleaned (ok _) files tmp stuck = files
cleaned (err e) files tmp stuck = if stuck then files else remove tmp files

-- `dir` is the parent of `path`
pub write_atomic : Text → Text → List ℕ → Faults → Fs → Result (Unit {0}) StoreError × Fs
unfolding write_steps temp_name
write_atomic dir path bytes f fs =
    let tmp = join_path dir (temp_name fs) in
    let (result, files) = write_steps fs.files tmp path bytes f in
    (
      map_err io result,
      record fs { files = cleaned result files tmp f.stuck; counter = suc fs.counter },
    )

-- `fs::read`
pub read_file : Text → Faults → Fs → Result (Option (List ℕ)) Text
read_file path f fs = elim f.read [ some e ↦ err e | none ↦ ok (lookup path fs.files) ]

-- a missing file is an error of its own kind
pub read : Text → Faults → Fs → Result (List ℕ) StoreError
unfolding read_file not_found
read path f fs = elim (read_file path f fs) [
  | err e ↦ err (io e)
  | ok none ↦ err (io not_found)
  | ok (some bytes) ↦ ok bytes
]

module _ (codec : Codec) where
  pub put_content_addressed :
      Text → Text → Text → Text → Text → Faults → Fs → Result (Unit {0}) StoreError × Fs
  unfolding read_file write_atomic
  put_content_addressed dir path kind key content f fs = elim (read_file path f fs) [
    | err e ↦ (err (io e), fs)
    | ok (some existing) ↦
        if existing == codec.encode content then (ok tt, fs) else (err (conflict kind key), fs)
    | ok none ↦ write_atomic dir path (codec.encode content) f fs
  ]

  read_to_string : Text → Faults → Fs → Result Text StoreError
  unfolding read not_utf8
  read_to_string path f fs = do
    bytes ← read path f fs
    elim (codec.decode bytes) [ none ↦ err (io not_utf8) | some text ↦ ok text ]

  -- Traces are append-only.
  unfoldable pub put_trace : TraceStore → Trace → Faults → Fs → Result (Unit {0}) StoreError × Fs
  unfolding write_atomic
  put_trace store trace f fs = elim (key_path store.traces trace.header.trace_id (codes "json")) [
    | err e ↦ (err e, fs)
    | ok path ↦
        if is_some (lookup path fs.files)
        then (err (trace_exists trace.header.trace_id), fs)
        else write_atomic store.traces path (codec.to_vec trace) f fs
  ]

  pub get_trace : TraceStore → Text → Faults → Fs → Result Trace StoreError
  unfolding read
  get_trace store trace_id f fs = do
    path ← key_path store.traces trace_id (codes "json")
    bytes ← read path f fs
    map_err json (codec.from_slice bytes)

  unfoldable pub put_program :
      TraceStore → Text → Text → Faults → Fs → Result (Unit {0}) StoreError × Fs
  unfolding put_content_addressed
  put_program store program_hash source f fs =
      elim (key_path store.programs program_hash (codes "lua")) [
        | err e ↦ (err e, fs)
        | ok path ↦
            put_content_addressed store.programs path (codes "program") program_hash source f fs
      ]

  pub get_program : TraceStore → Text → Faults → Fs → Result Text StoreError
  unfolding read_to_string
  get_program store program_hash f fs = do
    path ← key_path store.programs program_hash (codes "lua")
    read_to_string path f fs

  unfoldable pub put_description :
      TraceStore → Text → Text → Faults → Fs → Result (Unit {0}) StoreError × Fs
  unfolding put_content_addressed
  put_description store description_hash text f fs =
      elim (key_path store.descriptions description_hash (codes "txt")) [
        | err e ↦ (err e, fs)
        | ok path ↦
            put_content_addressed store.descriptions path (codes "description") description_hash
              text f fs
      ]

  pub get_description : TraceStore → Text → Faults → Fs → Result Text StoreError
  unfolding read_to_string
  get_description store description_hash f fs = do
    path ← key_path store.descriptions description_hash (codes "txt")
    read_to_string path f fs
