-- ===== src/Policy/Permitted.antt =====
-- What `check` allows, stated without the loop of src/policy.rs.
use proveno_gateway.Prelude.{
  ℤ, ◌≤ℤ◌, Text, true, Bool-cases, none, some, Option-cases, List, [], ◌∷◌, ◌≡◌, refl, ◌↔◌, inl,
  inr, All, arith,
}
use proveno_gateway.Prelude.Map.{lookup, contains}
use proveno_gateway.Json
use proveno_gateway.Json.{Json, as_i64, Serde}
use proveno_gateway.Policy.{Policy, allow, check_bound, check_bounds, check, or_empty}

-- The bounded argument is there, and is an integer up to the bound.
abbrev pub Within : Json → Text × ℤ → Type 0
Within args b =
    (value : Json) × (n : ℤ) × (Json.get b.0 args ≡ some value)
    × (as_i64 value ≡ some n)
    × (n ≤ℤ b.1)

-- The principal is known, the tool is on its list, and every bounded argument is within its bound.
abbrev pub Permitted : Policy → Text → Text → Json → Type 0
Permitted policy principal tool args =
    (tools : List Text) × (lookup principal policy.principals ≡ some tools)
    × (contains tool tools ≡ true)
    × All (Within args) (or_empty (lookup tool policy.constraints))

module _ (serde : Serde) where
  check_bound_sound :
      (tool : Text) (args : Json) (arg : Text) (max : ℤ)
      → check_bound serde tool args arg max ≡ none
      → Within args (arg, max)
  unfolding check_bound
  check_bound_sound tool args arg max h = elim (Option-cases (Json.get arg args)) [
    | inl e ↦ ground arith
    | inr (v, e) ↦ elim (Option-cases (as_i64 v)) [
      | inl f ↦ ground arith
      | inr (n, f) ↦ (v, n, e, f, ground arith)
    ]
  ]

  check_bound_complete :
      (tool : Text) (args : Json) (arg : Text) (max : ℤ)
      → Within args (arg, max)
      → check_bound serde tool args arg max ≡ none
  unfolding check_bound
  check_bound_complete tool args arg max (v, n, e, f, le) = ground arith

  check_bounds_sound :
      (tool : Text) (args : Json) (bounds : List (Text × ℤ))
      → check_bounds serde tool args bounds ≡ allow
      → All (Within args) bounds
  unfolding check_bounds
  check_bounds_sound tool args [] h = tt
  check_bounds_sound tool args ((arg, max) ∷ bounds) h =
      elim (Option-cases (check_bound serde tool args arg max)) [
        | inl e ↦ (
          check_bound_sound tool args arg max e,
          check_bounds_sound tool args bounds (ground arith),
        )
        | inr (r, e) ↦ ground arith
      ]

  check_bounds_complete :
      (tool : Text) (args : Json) (bounds : List (Text × ℤ))
      → All (Within args) bounds
      → check_bounds serde tool args bounds ≡ allow
  unfolding check_bounds
  check_bounds_complete tool args [] h = refl
  check_bounds_complete tool args ((arg, max) ∷ bounds) (h, hs) =
      ground
        (arith, check_bound_complete tool args arg max h, check_bounds_complete tool args bounds hs)

-- A call passes the policy exactly if its principal is known, the tool is on the principal's list,
-- and each argument that the tool's bounds name is there and is an integer up to its bound.
pub check-eq-allow_iff :
    (serde : Serde) (policy : Policy) (principal tool : Text) (args : Json)
    → (check serde policy principal tool args ≡ allow) ↔ Permitted policy principal tool args
unfolding check
check-eq-allow_iff serde policy principal tool args = (
  λ h. elim (Option-cases (lookup principal policy.principals)) [
    | inl e ↦ ground arith
    | inr (tools, e) ↦ elim (Bool-cases (contains tool tools)) [
      | inl has ↦ (tools, e, has, check_bounds_sound serde tool args _ (ground arith))
      | inr no_tool ↦ ground arith
    ]
  ],
  λ (tools, e, has, within). ground (
    arith,
    check_bounds_complete serde tool args (or_empty (lookup tool policy.constraints)) within,
  ),
)
