-- ===== src/Examples/Parts.antt =====
-- The theorems on the parts of the gateway, at inputs of this world.
use Prim.Native.Nat.{◌%◌}
use proveno_gateway.Prelude.{
  ℕ, Text, codes, ◌==◌, has_char, true, false, ◌&&◌, if◌then◌else◌, Option, none, some, List, [],
  ◌∷◌, ◌++◌, length, is_ok, Result, ok, map_err, ◌>>=◌, ◌≡◌, ◌≢◌, ◌↔◌, ◌⊎◌, refl, inl, arith,
  last_char, ends_with_char, Path,
}
use proveno_gateway.Prelude.Map.{lookup, insert}
use proveno_gateway.Json
use proveno_gateway.Json.{Json, Members, object}
use proveno_gateway.Policy
use proveno_gateway.Policy.{check}
use proveno_gateway.Policy.Permitted.{Permitted, check-eq-allow_iff}
use proveno_gateway.Downstream.{qualified_name, call, call_failed, read_response}
use proveno_gateway.Downstream.Connect.{child_env, child_env_lem}
use proveno_gateway.Downstream.Routing.{call-qualified_name}
use proveno_gateway.Store.{
  StoreError, Fs, join_path, temp_name, with_separator, key_path, write_atomic, no_faults,
}
use proveno_gateway.Store.Atomic.{write_atomic_all_or_nothing, write_atomic_leaves_no_temp}
use proveno_gateway.Store.Kept.{IsKept, IsKept-ne-temp}
use proveno_gateway.Store.Laws.{key_path_stays}
use proveno_gateway.Server.Digests.{constant_time_eq, constant_time_eq_iff}
use proveno_gateway.Config
use proveno_gateway.Config.{PrincipalConfig}
use proveno_gateway.Server.Tokens.{
  resolve, principal_for, Digests, Entry, Configured, principal_for_iff, principal_for-Configured,
}
use proveno_gateway.Examples.World.{
  alice, empty_fs, read_name, read_tool, policy, serde, provenance_serde, rmcp, downstreams, hello,
}

check-eq-allow_iff_example :
    (check serde policy alice read_name (object Json.end) ≡ Policy.allow)
    ↔ Permitted policy alice read_name (object Json.end)
check-eq-allow_iff_example = check-eq-allow_iff serde policy alice read_name (object Json.end)

abbrev target : Text
target = codes "/s/traces/0a.json"

abbrev wrote : Result (Unit {0}) StoreError × Fs
wrote = write_atomic (codes "/s/traces") target (1 ∷ 2 ∷ []) no_faults empty_fs

target-IsKept : IsKept target
unfolding codes last_char
target-IsKept = omega arith

target-ne-temp : target ≢ join_path (codes "/s/traces") (temp_name empty_fs)
target-ne-temp = IsKept-ne-temp target (codes "/s/traces") empty_fs target-IsKept

write_atomic_all_or_nothing_example : lookup target wrote.1.files ≡ (
    if is_ok wrote.0 && target == target then some (1 ∷ 2 ∷ []) else lookup target empty_fs.files)
unfolding codes
write_atomic_all_or_nothing_example =
    write_atomic_all_or_nothing (codes "/s/traces") target (1 ∷ 2 ∷ []) no_faults empty_fs target
      target-ne-temp

constant_time_eq_iff_example :
    (constant_time_eq (1 ∷ 200 ∷ []) (1 ∷ 201 ∷ []) ≡ true)
    ↔ (Path (List ℕ) (1 ∷ 200 ∷ []) (1 ∷ 201 ∷ []))
constant_time_eq_iff_example =
    constant_time_eq_iff (1 ∷ 200 ∷ []) (1 ∷ 201 ∷ []) (omega arith, (omega arith, tt))
      (omega arith, (omega arith, tt)) refl

child_env_lem_example :
    ((codes "TOKEN" ≡ codes "PATH") × (Path (Option Text) none (some (codes "t"))))
    ⊎ ((codes "TOKEN" ≡ codes "HOME") × (Path (Option Text) none (some (codes "t"))))
    ⊎ (Path
        (Option (Text × Text))
        (some (codes "TOKEN", codes "t"))
        (some (codes "TOKEN", codes "t")))
unfolding child_env lookup codes ◌==◌ insert
child_env_lem_example =
    child_env_lem (λ n. none) (some (codes "TOKEN", codes "t")) (codes "TOKEN") (codes "t") refl

key_path_stays_example :
    (codes "/s/0a.json" ≡ with_separator (codes "/s") ++ (codes "0a" ++ b'.' ∷ codes "json"))
    × (codes "0a" ≢ [])
    × (has_char b'/' (codes "0a") ≡ false)
    × (has_char b'.' (codes "0a") ≡ false)
unfolding key_path codes join_path ends_with_char
key_path_stays_example =
    key_path_stays (codes "/s") (codes "0a") (codes "json") (codes "/s/0a.json") refl

call-qualified_name_example :
    call serde provenance_serde rmcp downstreams (qualified_name read_tool) (object Json.end) 4 ≡ (
      map_err (call_failed (qualified_name read_tool)) (ok hello)
          >>= read_response serde provenance_serde rmcp (qualified_name read_tool) (codes "files"),
      5,
    )
unfolding has_char codes lookup ◌==◌
call-qualified_name_example =
    call-qualified_name serde provenance_serde rmcp downstreams read_tool tt (object Json.end)
      (some Json.end) 4 refl (inl refl) refl refl

write_atomic_leaves_no_temp_example :
    lookup (join_path (codes "/s/traces") (temp_name empty_fs)) wrote.1.files ≡ none
write_atomic_leaves_no_temp_example =
    write_atomic_leaves_no_temp (codes "/s/traces") target (1 ∷ 2 ∷ []) no_faults empty_fs
      target-ne-temp refl

-- a digest of 32 bytes
abbrev pub sha : Text → List ℕ
sha t =
    length t % 256
    ∷ 0
    ∷ 0
    ∷ 0
    ∷ 0
    ∷ 0
    ∷ 0
    ∷ 0
    ∷ 0
    ∷ 0
    ∷ 0
    ∷ 0
    ∷ 0
    ∷ 0
    ∷ 0
    ∷ 0
    ∷ 0
    ∷ 0
    ∷ 0
    ∷ 0
    ∷ 0
    ∷ 0
    ∷ 0
    ∷ 0
    ∷ 0
    ∷ 0
    ∷ 0
    ∷ 0
    ∷ 0
    ∷ 0
    ∷ 0
    ∷ 0
    ∷ []

pub sha-Digests : Digests sha
sha-Digests t = (ground arith, refl)

abbrev env : Text → Option Text
env name = some (codes "5e")

abbrev principals : List (Text × PrincipalConfig)
principals = (alice, record { token = record { reference = codes "env:A" } }) ∷ []

abbrev tokens : List (Text × List ℕ)
tokens = (alice, sha (codes "5e")) ∷ []

tokens-resolve : resolve env sha principals ≡ ok tokens
unfolding resolve Config.resolve codes lookup insert
tokens-resolve = refl

principal_for_iff_example :
    (principal_for sha tokens (codes "5e") ≡ some alice) ↔ Entry alice (sha (codes "5e")) tokens
principal_for_iff_example =
    principal_for_iff sha sha-Digests env principals tokens (codes "5e") alice tokens-resolve

alice-known : principal_for sha tokens (codes "5e") ≡ some alice
alice-known =
    (principal_for_iff sha sha-Digests env principals tokens (codes "5e") alice tokens-resolve).1
      (inl (refl, refl))

principal_for-Configured_example : Configured sha env alice (sha (codes "5e")) principals
principal_for-Configured_example =
    principal_for-Configured sha sha-Digests env principals tokens (codes "5e") alice tokens-resolve
      alice-known
