-- ===== src/Store/Atomic.antt =====
-- Writes are all or nothing.
use proveno_gateway.Prelude.{
  ℕ, Text, ◌==◌, eq_iff, Bool, false, none, some, List, Result, ok, err, is_ok, map_err, ◌&&◌, ◌∙◌,
  eq_refl, ◌≡◌, ◌≢◌, refl, arith, if◌then◌else◌,
}
use proveno_gateway.Prelude.Map.{lookup, insert, remove, lookup-insert, lookup-remove}
use proveno_gateway.Store.{
  io, Files, Faults, Fs, join_path, temp_name, write_steps, write_atomic, cleaned,
}

module _ (tmp other : Text) (h : other ≢ tmp) (files : Files) where
  -- what is done to the temp file does not touch another
  lookup-insert_tmp : (bytes : List ℕ) → lookup other (insert tmp bytes files) ≡ lookup other files
  lookup-insert_tmp bytes = ground (arith, lookup-insert tmp other bytes files, eq_iff tmp other)

  lookup-remove_tmp : lookup other (remove tmp files) ≡ lookup other files
  lookup-remove_tmp = ground (arith, lookup-remove tmp other files, eq_iff tmp other)

module _ (tmp other : Text) (h : other ≢ tmp) (files : Files) where
  lookup-cleaned :
      (r : Result (Unit {0}) Text) (stuck : Bool)
      → lookup other (cleaned r files tmp stuck) ≡ lookup other files
  lookup-cleaned (ok u) stuck = refl
  lookup-cleaned (err e) stuck = ground (arith, lookup-remove_tmp tmp other h files)

  lookup-write_steps :
      (path : Text) (bytes : List ℕ) (f : Faults)
      → lookup other (write_steps files tmp path bytes f).1 ≡ (
          if is_ok (write_steps files tmp path bytes f).0 && path == other
          then some bytes
          else lookup other files)
  unfolding write_steps
  lookup-write_steps path bytes f = ground (
    arith,
    lookup-insert_tmp tmp other h files bytes,
    lookup-insert_tmp tmp other h files f.partial,
    lookup-remove_tmp tmp other h files,
    lookup-insert path other bytes (remove tmp files),
  )

is_ok-map_err : {A E F : Type 0} (g : E → F) (r : Result A E) → is_ok (map_err g r) ≡ is_ok r
is_ok-map_err g (ok a) = refl
is_ok-map_err g (err e) = refl

no_temp :
    (tmp path : Text)
    → path ≢ tmp
    → (files : Files) (bytes : List ℕ) (f : Faults) → f.stuck ≡ false
    → lookup tmp (
        cleaned
          (write_steps files tmp path bytes f).0
          (write_steps files tmp path bytes f).1
          tmp
          f.stuck)
      ≡ none
unfolding write_steps
no_temp tmp path h files bytes f free = ground (
  arith,
  eq_refl tmp,
  eq_iff path tmp,
  lookup-remove tmp tmp files,
  lookup-remove tmp tmp (insert tmp bytes files),
  lookup-remove tmp tmp (insert tmp f.partial files),
  lookup-insert path tmp bytes (remove tmp files),
)

-- Whatever the system refuses, a file other than the temp file of a write ends as it was, but for
-- the target of a write that succeeded, which then has the whole content.
pub write_atomic_all_or_nothing :
    (dir path : Text) (bytes : List ℕ) (f : Faults) (fs : Fs) (other : Text)
    → other ≢ join_path dir (temp_name fs)
    → lookup other (write_atomic dir path bytes f fs).1.files ≡ (
        if is_ok (write_atomic dir path bytes f fs).0 && path == other
        then some bytes
        else lookup other fs.files)
unfolding write_atomic
write_atomic_all_or_nothing dir path bytes f fs other h =
    let tmp = join_path dir (temp_name fs) in
    let r = write_steps fs.files tmp path bytes f in
    rw (is_ok-map_err io r.0) (
      lookup-cleaned tmp other h r.1 r.0 f.stuck
      ∙ lookup-write_steps tmp other h fs.files path bytes f)

-- After a write, successful or not, its temp file is not there, unless the system keeps the code
-- from removing it.
pub write_atomic_leaves_no_temp :
    (dir path : Text) (bytes : List ℕ) (f : Faults) (fs : Fs)
    → path ≢ join_path dir (temp_name fs)
    → f.stuck ≡ false
    → lookup (join_path dir (temp_name fs)) (write_atomic dir path bytes f fs).1.files ≡ none
unfolding write_atomic
write_atomic_leaves_no_temp dir path bytes f fs h free =
    let tmp = join_path dir (temp_name fs) in no_temp tmp path h fs.files bytes f free
