-- ===== src/Server/Tokens.antt =====
-- src/server.rs, `Tokens`: from a presented token to a principal.
mod Resolving
mod Loop
unfoldable pub use Resolving.*
pub use Loop.*
use proveno_gateway.Prelude.{
  ℕ, Text, ◌==◌, eq_iff, eq_refl, text_lt, Bool-cases, subst, ok-inj, some-inj, map_err-eq-ok,
  >>=-eq-ok, Bool, Option, none, some, Option-cases, List, [], ◌∷◌, length, All, Result, ok, err,
  map_err, ◌>>=◌, if◌then◌else◌, ◌≡◌, ◌≢◌, ◌↔◌, refl, sym, ◌∙◌, ◌⊎◌, inl, inr, arith,
}
use proveno_gateway.Prelude.Map.{lookup, insert, lookup-insert}
use proveno_gateway.Config.{PrincipalConfig, ConfigError}
use proveno_gateway.Config
use proveno_gateway.Server.Digests.{constant_time_eq, constant_time_eq_iff, Bytes}

module _ (sha256 : Text → List ℕ) where
  -- Over the digests that `resolve` made, a token is a principal's exactly if the digest kept for
  -- that principal is that of the token, whatever the order of the entries.
  pub principal_for_iff :
      (bytes : Digests sha256) (var : Text → Option Text)
      (principals : List (Text × PrincipalConfig)) (tokens : List (Text × List ℕ))
      (token name : Text)
      → resolve var sha256 principals ≡ ok tokens
      → (principal_for sha256 tokens token ≡ some name) ↔ Entry name (sha256 token) tokens
  unfolding resolve principal_for
  principal_for_iff bytes var principals tokens token name h =
      let (known, e, f) =
        >>=-eq-ok (resolve_all var sha256 (record { digests = []; seen = [] }) principals) _ h in
      let s =
        subst (Seen sha256 known.seen) (ok-inj f) (
          resolve_all-Seen sha256 var principals (record { digests = []; seen = [] }) known tt e) in
      elim (last_match-cases sha256 bytes known.seen token none tokens s) [
        | inl (n, found, there) ↦ (
          λ g. subst (λ (m : Text). Entry m (sha256 token) tokens) (some-inj (sym found ∙ g)) there,
          λ entry.
              found
              ∙ sym (Entry-lookup sha256 known.seen n (sha256 token) tokens s there)
              ∙ Entry-lookup sha256 known.seen name (sha256 token) tokens s entry,
        )
        | inr (found, nowhere) ↦ (λ g. absurd (cc), λ entry. absurd (nowhere name entry))
      ]

  -- A principal of the configuration whose token is set, is not empty and has this digest.
  abbrev pub Configured :
      (Text → Option Text) → Text → List ℕ → List (Text × PrincipalConfig) → Type 0
  Configured var name d [] = ⊥
  Configured var name d ((n, p) ∷ rest) =
      ((n ≡ name) × (t : Text) × (Config.resolve var p.token ≡ ok t) × (t ≢ []) × (d ≡ sha256 t))
      ⊎ Configured var name d rest

  Entry-insert :
      (name k : Text) (d v : List ℕ) (ds : List (Text × List ℕ))
      → Entry name d (insert k v ds)
      → ((k ≡ name) × (v ≡ d)) ⊎ Entry name d ds
  unfolding insert
  Entry-insert name k d v [] e = e
  Entry-insert name k d v ((n, x) ∷ ds) e = elim (Bool-cases (n == k)) [
    | inl same ↦
        elim (subst
          (λ (b : Bool). Entry name d (
            if b
            then (k, v) ∷ ds
            else if text_lt k n
            then (k, v) ∷ (n, x) ∷ ds
            else (n, x) ∷ insert k v ds))
          same e) [ inl here ↦ inl here | inr there ↦ inr (inr there) ]
    | inr other ↦
        let shown =
          subst
            (λ (b : Bool). Entry name d (
              if b
              then (k, v) ∷ ds
              else if text_lt k n
              then (k, v) ∷ (n, x) ∷ ds
              else (n, x) ∷ insert k v ds))
            other e in
        elim (Bool-cases (text_lt k n)) [
          | inl before ↦
              subst
                (λ (b : Bool).
                  Entry name d (if b then (k, v) ∷ (n, x) ∷ ds else (n, x) ∷ insert k v ds))
                before shown
          | inr after ↦
              elim (subst
                (λ (b : Bool).
                  Entry name d (if b then (k, v) ∷ (n, x) ∷ ds else (n, x) ∷ insert k v ds))
                after shown) [
                  | inl here ↦ inr (inl here)
                  | inr there ↦ elim (Entry-insert name k d v ds there) [
                    | inl here ↦ inl here
                    | inr deep ↦ inr (inr deep)
                  ]
                ]
        ]
  ]

  added-digests :
      (var : Text → Option Text) (known known' : Known) (n : Text) (c : ℕ) (token : Text)
      → lookup (sha256 (c ∷ token)) known.seen ≡ none
      → add_token var sha256 known n (c ∷ token) ≡ ok known'
      → known'.digests ≡ insert n (sha256 (c ∷ token)) known.digests
  unfolding add_token
  added-digests var known known' n c token fresh h = ground arith

  added-Entry :
      (var : Text → Option Text) (known known' : Known) (n token name : Text) (d : List ℕ)
      → add_token var sha256 known n token ≡ ok known'
      → Entry name d known'.digests
      → ((n ≡ name) × (token ≢ []) × (d ≡ sha256 token)) ⊎ Entry name d known.digests
  unfolding add_token
  added-Entry var known known' n [] name d h e = cc
  added-Entry var known known' n (c ∷ token) name d h e =
      elim (Option-cases (lookup (sha256 (c ∷ token)) known.seen)) [
        | inr (other, shared) ↦ absurd (ground arith)
        | inl fresh ↦
            elim (Entry-insert name n d (sha256 (c ∷ token)) known.digests
              (subst (Entry name d) (added-digests var known known' n c token fresh h) e)) [
                | inl (a, b) ↦ inl (a, λ q. cc, sym b)
                | inr there ↦ inr there
              ]
      ]

  resolve_all-Configured :
      (var : Text → Option Text) (principals : List (Text × PrincipalConfig)) (known last : Known)
      (name : Text) (d : List ℕ)
      → resolve_all var sha256 known principals ≡ ok last
      → Entry name d last.digests
      → Entry name d known.digests ⊎ Configured var name d principals
  unfolding resolve_all
  resolve_all-Configured var [] known last name d h e =
      inl (subst (λ (k : Known). Entry name d k.digests) (sym (ok-inj h)) e)
  resolve_all-Configured var ((n, p) ∷ rest) known last name d h e =
      let (token, resolved, h1) =
        >>=-eq-ok (map_err (unresolved n) (Config.resolve var p.token)) _ h in
      let (known', added, h2) = >>=-eq-ok (add_token var sha256 known n token) _ h1 in
      elim (resolve_all-Configured var rest known' last name d h2 e) [
        | inr later ↦ inr (inr later)
        | inl there ↦ elim (added-Entry var known known' n token name d added there) [
          | inr before ↦ inl before
          | inl (a, b, f) ↦ inr (inl (a, token, map_err-eq-ok (unresolved n) _ resolved, b, f))
        ]
      ]

  -- A token that is accepted as a principal has the digest of a token that the configuration names
  -- for that principal, and that one is set and not empty.
  pub principal_for-Configured :
      (bytes : Digests sha256) (var : Text → Option Text)
      (principals : List (Text × PrincipalConfig)) (tokens : List (Text × List ℕ))
      (token name : Text)
      → resolve var sha256 principals ≡ ok tokens
      → principal_for sha256 tokens token ≡ some name
      → Configured var name (sha256 token) principals
  unfolding resolve
  principal_for-Configured bytes var principals tokens token name h found =
      let entry = (principal_for_iff bytes var principals tokens token name h).0 found in
      let (known, e, f) =
        >>=-eq-ok (resolve_all var sha256 (record { digests = []; seen = [] }) principals) _ h in
      elim (resolve_all-Configured var principals (record { digests = []; seen = [] }) known name
        (sha256 token) e
        (subst (λ (ds : List (Text × List ℕ)). Entry name (sha256 token) ds) (sym (ok-inj f))
          entry)) [ inl none_yet ↦ absurd none_yet | inr c ↦ c ]
