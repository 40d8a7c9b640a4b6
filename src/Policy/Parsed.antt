-- ===== src/Policy/Parsed.antt =====
-- What a policy file says is what its policy holds.
use mathlib.Core.List.{append_cancel_right}
use proveno_gateway.Prelude.{
  ℤ, Text, codes, ◌==◌, eq_iff, eq_refl, strip_suffix, strip_suffix-eq-some, Bool-cases, Option,
  none, some, Option-cases, List, [], ◌∷◌, ◌++◌, Result, ok, >>=-eq-ok, map_err, map_err-eq-ok,
  ok-inj, some-inj, All, ◌≡◌, ◌≢◌, refl, sym, ap, ◌∙◌, subst, ◌⊎◌, inl, inr, arith,
}
use proveno_gateway.Prelude.Map.{lookup, insert, lookup-insert, contains, contains-key_set}
use proveno_gateway.Policy.{
  Policy, PolicyFile, PrincipalFile, invalid, non_empty, bound_arg, parse_bounds, parse_constraints,
  allow_sets, parse, allowed_tools, or_empty,
}

-- No key is there twice: these are the entries of a map.
abbrev pub Distinct {ℓ} : {V : Type ℓ} → List (Text × V) → Type ℓ
Distinct [] = Unit
Distinct ((k, v) ∷ m) = (lookup k m ≡ none) × Distinct m

abbrev pub or_else : Option ℤ → Option ℤ → Option ℤ
or_else (some a) b = some a
or_else none b = b

abbrev pub then_lookup {ℓ} : {V : Type ℓ} → Text → Option (List (Text × V)) → Option V
then_lookup k none = none
then_lookup k (some m) = lookup k m

non_empty-eq-some : (o : Option Text) (a : Text) → non_empty o ≡ some a → (o ≡ some a) × (a ≢ [])
non_empty-eq-some none a h = cc
non_empty-eq-some (some []) a h = cc
non_empty-eq-some (some (c ∷ s)) a h = (h, λ e. absurd (ground arith))

-- The key of a bound is the argument and `_max`.
bound_arg-eq-some : (key a : Text) → bound_arg key ≡ some a → key ≡ a ++ codes "_max"
unfolding bound_arg
bound_arg-eq-some key a h =
    strip_suffix-eq-some key (codes "_max") a
      (non_empty-eq-some (strip_suffix key (codes "_max")) a h).0

same_key : (key a b : Text) → bound_arg key ≡ some b → (b == a) ≡ (key == (a ++ codes "_max"))
same_key key a b h = elim (Bool-cases (b == a)) [
  | inl same ↦ ground (arith, bound_arg-eq-some key b h, eq_iff b a, eq_refl (a ++ codes "_max"))
  | inr other ↦ elim (Bool-cases (key == (a ++ codes "_max"))) [
    | inr apart ↦ ground arith
    | inl equal ↦
        let e = (eq_iff key (a ++ codes "_max")).0 equal in
        let f = append_cancel_right b a (codes "_max") (sym (bound_arg-eq-some key b h) ∙ e) in
        absurd (ground (arith, eq_iff b a, f))
  ]
]

lookup-parse_bounds :
    (tool a : Text) (args : List (Text × ℤ)) (bounds : List (Text × ℤ)) (last : List (Text × ℤ))
    → parse_bounds tool args bounds ≡ ok last
    → Distinct bounds
    → lookup a last ≡ or_else (lookup (a ++ codes "_max") bounds) (lookup a args)
unfolding parse_bounds lookup
lookup-parse_bounds tool a args [] last h d = ground arith
lookup-parse_bounds tool a args ((key, max) ∷ bounds) last h (fresh, d) =
    elim (Option-cases (bound_arg key)) [
      | inl bad ↦ absurd (ground arith)
      | inr (b, good) ↦
          let rest = lookup-parse_bounds tool a (insert b max args) bounds last (ground arith) d in
          elim (Bool-cases (b == a)) [
            | inl same ↦ ground (
              arith,
              rest,
              same_key key a b good,
              eq_iff key (a ++ codes "_max"),
              fresh,
              lookup-insert b a max args,
            )
            | inr other ↦ ground (arith, rest, same_key key a b good, lookup-insert b a max args)
          ]
    ]

-- The bounds of a tool are those parsed of its table.
lookup-parse_constraints :
    (tool : Text) (constraints : List (Text × List (Text × ℤ)))
    (tables : List (Text × List (Text × ℤ))) (last : List (Text × List (Text × ℤ)))
    → parse_constraints constraints tables ≡ ok last
    → Distinct tables
    → ((lookup tool tables ≡ none) × (lookup tool last ≡ lookup tool constraints))
      ⊎ ((bounds args : List (Text × ℤ)) × (lookup tool tables ≡ some bounds)
          × (lookup tool last ≡ some args)
          × (parse_bounds tool [] bounds ≡ ok args))
unfolding parse_constraints lookup
lookup-parse_constraints tool constraints [] last h d = inl (refl, ground arith)
lookup-parse_constraints tool constraints ((t, bounds) ∷ tables) last h (fresh, d) =
    let (args, parsed, h1) =
      >>=-eq-ok (parse_bounds t [] bounds)
        (λ (args : List (Text × ℤ)). parse_constraints (insert t args constraints) tables) h in
    let later = lookup-insert t tool args constraints in
    elim (lookup-parse_constraints tool (insert t args constraints) tables last h1 d) [
      | inr (found, made, there, kept, p) ↦ elim (Bool-cases (t == tool)) [
        | inl same ↦ absurd (ground (arith, eq_iff t tool))
        | inr other ↦ inr (found, made, ground arith, kept, p)
      ]
      | inl (nowhere, kept) ↦ elim (Bool-cases (t == tool)) [
        | inl same ↦
            let e = (eq_iff t tool).0 same in
            inr (
              bounds,
              args,
              ground arith,
              ground (arith, later),
              subst (λ (x : Text). parse_bounds x [] bounds ≡ ok args) e parsed,
            )
        | inr other ↦ inl (ground arith, ground (arith, later))
      ]
    ]

All-lookup :
    (P : List (Text × ℤ) → Type 0) (k : Text) (m : List (Text × List (Text × ℤ)))
    (v : List (Text × ℤ))
    → All (λ (e : Text × List (Text × ℤ)). P e.1) m
    → lookup k m ≡ some v
    → P v
unfolding lookup
All-lookup P k [] v every h = cc
All-lookup P k ((j, w) ∷ m) v (here, every) h = elim (Bool-cases (j == k)) [
  | inl same ↦ subst P (some-inj (ground arith)) here
  | inr other ↦ All-lookup P k m v every (ground arith)
]

-- the tools that the file lists for a principal
abbrev pub allow_list : Option PrincipalFile → List Text
allow_list none = []
allow_list (some p) = p.allow

contains-allow_sets :
    (tool principal : Text) (ps : List (Text × PrincipalFile))
    → contains tool (or_empty (lookup principal (allow_sets ps)))
      ≡ contains tool (allow_list (lookup principal ps))
unfolding lookup allow_sets contains
contains-allow_sets tool principal [] = refl
contains-allow_sets tool principal ((name, p) ∷ ps) = elim (Bool-cases (name == principal)) [
  | inl same ↦ ground (arith, contains-key_set tool p.allow)
  | inr other ↦ ground (arith, contains-allow_sets tool principal ps)
]

-- The policy allows each principal the tools on its list in the file, and bounds an argument of a
-- tool by what the table of the tool has under the name of the argument and `_max`.
pub record Says (file : PolicyFile) (policy : Policy) : Type 0 where
  pub allows :
      (principal tool : Text)
      → contains tool (allowed_tools policy principal)
        ≡ contains tool (allow_list (lookup principal file.principals))
  pub bounds :
      (tool arg : Text)
      → then_lookup arg (lookup tool policy.constraints)
        ≡ then_lookup (arg ++ codes "_max") (lookup tool file.constraints)

constraints-Says :
    (tool arg : Text) (tables last : List (Text × List (Text × ℤ)))
    → parse_constraints [] tables ≡ ok last
    → Distinct tables
    → All (λ (e : Text × List (Text × ℤ)). Distinct e.1) tables
    → then_lookup arg (lookup tool last) ≡ then_lookup (arg ++ codes "_max") (lookup tool tables)
unfolding lookup
constraints-Says tool arg tables last h d every =
    elim (lookup-parse_constraints tool [] tables last h d) [
      | inl (nowhere, kept) ↦ rw (nowhere, kept) refl
      | inr (bounds, args, there, kept, parsed) ↦
          let each = All-lookup Distinct tool tables bounds every there in
          rw (there, kept) (ground (arith, lookup-parse_bounds tool arg [] bounds args parsed each))
    ]

-- A policy that is parsed says what its file says: each principal may call the tools on its list,
-- and an argument of a tool is bounded exactly by what the table of that tool has for the name of
-- the argument and `_max`, if the tables of the file have no key twice.
pub parse-Says :
    (from_str : Text → Result PolicyFile Text) (text : Text) (file : PolicyFile) (policy : Policy)
    → from_str text ≡ ok file
    → Distinct file.constraints
    → All (λ (e : Text × List (Text × ℤ)). Distinct e.1) file.constraints
    → parse from_str text ≡ ok policy
    → Says file policy
unfolding parse allowed_tools
parse-Says from_str text file policy read d every h =
    let (f, e, h1) = >>=-eq-ok (map_err invalid (from_str text)) _ h in
    let (constraints, parsed, h2) = >>=-eq-ok (parse_constraints [] f.constraints) _ h1 in
    let same = ok-inj (sym (map_err-eq-ok invalid _ e) ∙ read) in
    record {
      allows = λ principal tool.
          ground (arith, contains-allow_sets tool principal file.principals, same, h2);
      bounds = λ tool arg.
          ap (λ (p : Policy). then_lookup arg (lookup tool p.constraints)) (sym (ok-inj h2))
          ∙ constraints-Says tool arg file.constraints constraints
              (ap (λ (x : PolicyFile). parse_constraints [] x.constraints) (sym same) ∙ parsed) d
              every;
    }
