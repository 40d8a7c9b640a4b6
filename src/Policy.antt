-- ===== src/Policy.antt =====
-- src/policy.rs: allow-lists and per-argument bounds.
pub mod Permitted
pub mod Parsed
use proveno_gateway.Prelude.{
  ℕ, ℤ, ltb_ℤ, int_text, Text, codes, strip_suffix, not, Option, none, some, List, [], ◌∷◌, ◌++◌,
  Result, ok, err, ◌>>=◌, map_err, if◌then◌else◌,
}
use proveno_gateway.Prelude.Map.{lookup, insert, contains, key_set}
use proveno_gateway.Json
use proveno_gateway.Json.{Json, as_i64, as_u64, Serde}

pub data Decision : Type 0 where
  allow : Decision
  deny : Text → Decision

pub record Policy : Type 0 where
  pub principals : List (Text × List Text)
  pub constraints : List (Text × List (Text × ℤ))

-- `PolicyError::Invalid`
pub data PolicyError : Type 0 where
  invalid : Text → PolicyError

pub record PrincipalFile : Type 0 where
  pub allow : List Text

pub record PolicyFile : Type 0 where
  pub principals : List (Text × PrincipalFile)
  pub constraints : List (Text × List (Text × ℤ))

pub unsupported_key : Text → Text → Text
unsupported_key tool key =
    codes "constraint " ++ tool ++ codes "." ++ key ++ codes ": only <arg>_max bounds are supported"

abbrev non_empty : Option Text → Option Text
non_empty none = none
non_empty (some []) = none
non_empty (some (c ∷ s)) = some (c ∷ s)

-- `strip_suffix("_max").filter(|arg| !arg.is_empty())`
unfoldable pub bound_arg : Text → Option Text
bound_arg key = non_empty (strip_suffix key (codes "_max"))

-- the inner loop of `parse`, over the bounds of one tool
unfoldable pub parse_bounds :
    Text → List (Text × ℤ) → List (Text × ℤ) → Result (List (Text × ℤ)) PolicyError
parse_bounds tool args [] = ok args
parse_bounds tool args ((key, max) ∷ bounds) = elim (bound_arg key) [
  | none ↦ err (invalid (unsupported_key tool key))
  | some arg ↦ parse_bounds tool (insert arg max args) bounds
]

-- the outer loop
unfoldable pub parse_constraints :
    List (Text × List (Text × ℤ))
    → List (Text × List (Text × ℤ))
    → Result (List (Text × List (Text × ℤ))) PolicyError
parse_constraints constraints [] = ok constraints
parse_constraints constraints ((tool, bounds) ∷ rest) =
    let later = λ (args : List (Text × ℤ)). parse_constraints (insert tool args constraints) rest in
    parse_bounds tool [] bounds >>= later

unfoldable pub allow_sets : List (Text × PrincipalFile) → List (Text × List Text)
allow_sets [] = []
allow_sets ((name, p) ∷ rest) = (name, key_set p.allow) ∷ allow_sets rest

-- `from_str` is the `toml` crate's reader of a policy file, with its error as text.
unfoldable pub parse : (from_str : Text → Result PolicyFile Text) → Text → Result Policy PolicyError
parse from_str text = do
  file ← map_err invalid (from_str text)
  constraints ← parse_constraints [] file.constraints
  ok (record { principals = allow_sets file.principals; constraints = constraints })

abbrev in_file : Text → PolicyError → PolicyError
in_file path (invalid e) = invalid (path ++ codes ": " ++ e)

-- `read_to_string` is the operating system's, with its error as text.
unfoldable pub load :
    (read_to_string : Text → Result Text Text) (from_str : Text → Result PolicyFile Text)
    → Text
    → Result Policy PolicyError
load read_to_string from_str path = do
  text ← map_err (λ e. in_file path (invalid e)) (read_to_string path)
  map_err (in_file path) (parse from_str text)

-- `to_vec` is serde_json's form of a policy, `sha256` the digest.
pub policy_hash : (to_vec : Policy → List ℕ) (sha256 : List ℕ → List ℕ) → Policy → List ℕ
policy_hash to_vec sha256 policy = sha256 (to_vec policy)

abbrev or_empty {ℓ} : {A : Type ℓ} → Option (List A) → List A
or_empty none = []
or_empty (some xs) = xs

unfoldable pub allowed_tools : Policy → Text → List Text
allowed_tools policy principal = or_empty (lookup principal policy.principals)

unknown_principal : Text → Text
unknown_principal principal = codes "unknown principal " ++ principal

not_allowed : Text → Text → Text
not_allowed tool principal = tool ++ codes " is not allowed for principal " ++ principal

required_by : Text → Text → Text
required_by tool arg = tool ++ codes ": " ++ arg ++ codes " is required by " ++ arg ++ codes "_max"

not_integer : Text → Text → Text → Text
not_integer tool arg value =
    tool ++ codes ": " ++ arg ++ codes " " ++ value ++ codes " is not an integer"

over_bound : Text → Text → Text → Text → Text
over_bound tool arg value max =
    tool
    ++ codes ": "
    ++ arg
    ++ codes " "
    ++ value
    ++ codes " exceeds "
    ++ arg
    ++ codes "_max "
    ++ max

module _ (serde : Serde) where
  -- one round of the loop of `check`; `none` goes on
  check_bound : Text → Json → Text → ℤ → Option Text
  check_bound tool args arg max = elim (Json.get arg args) [
    | none ↦ some (required_by tool arg)
    | some value ↦ elim (as_i64 value) [
      | some n ↦
          if ltb_ℤ max n
          then some (over_bound tool arg (serde.to_text value) (int_text max))
          else none
      | none ↦ elim (as_u64 value) [
        | some u ↦ some (over_bound tool arg (serde.to_text value) (int_text max))
        | none ↦ some (not_integer tool arg (serde.to_text value))
      ]
    ]
  ]

  check_bounds : Text → Json → List (Text × ℤ) → Decision
  check_bounds tool args [] = allow
  check_bounds tool args ((arg, max) ∷ bounds) = elim (check_bound tool args arg max) [
    | none ↦ check_bounds tool args bounds
    | some reason ↦ deny reason
  ]

  pub check : Policy → Text → Text → Json → Decision
  check policy principal tool args = elim (lookup principal policy.principals) [
    | none ↦ deny (unknown_principal principal)
    | some tools ↦
        if not (contains tool tools)
        then deny (not_allowed tool principal)
        else check_bounds tool args (or_empty (lookup tool policy.constraints))
  ]
