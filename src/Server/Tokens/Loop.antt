-- ===== src/Server/Tokens/Loop.antt =====
-- What the loop over the configured tokens keeps.
use proveno_gateway.Prelude.{
  ℕ, Text, ◌==◌, eq_iff, eq_refl, text_lt, Bool-cases, subst, ok-inj, >>=-eq-ok, Option, none, some,
  Option-cases, List, [], ◌∷◌, length, All, ok, map_err, ◌≡◌, refl, sym, ◌⊎◌, inl, inr, arith,
}
use proveno_gateway.Prelude.Map.{lookup, insert, lookup-insert}
use proveno_gateway.Config.{PrincipalConfig, ConfigError}
use proveno_gateway.Config
use proveno_gateway.Server.Digests.{constant_time_eq, constant_time_eq_iff, Bytes}
use proveno_gateway.Server.Tokens.Resolving.{
  Known, TokenError, add_token, resolve_all, last_match, unresolved,
}

-- The list has this digest under this name.
abbrev pub Entry : Text → List ℕ → List (Text × List ℕ) → Type 0
Entry name digest [] = ⊥
Entry name digest ((n, d) ∷ ds) = (n ≡ name) × (d ≡ digest) ⊎ Entry name digest ds

module _ (sha256 : Text → List ℕ) where
  -- Every entry is a digest of the length of digests, and is seen under its principal.
  abbrev pub Seen : List (List ℕ × Text) → List (Text × List ℕ) → Type 0
  Seen seen =
      All (λ (e : Text × List ℕ). (lookup e.1 seen ≡ some e.0) × ((t : Text) × (e.1 ≡ sha256 t)))

  Seen-insert :
      (seen : List (List ℕ × Text)) (name token : Text) (ds : List (Text × List ℕ))
      → lookup (sha256 token) seen ≡ none
      → Seen seen ds
      → Seen (insert (sha256 token) name seen) ds
  Seen-insert seen name token [] fresh s = tt
  Seen-insert seen name token ((n, d) ∷ ds) fresh ((here, from), s) = (
    (ground (arith, lookup-insert (sha256 token) d name seen, eq_iff (sha256 token) d), from),
    Seen-insert seen name token ds fresh s,
  )

  Seen-add :
      (seen : List (List ℕ × Text)) (name token : Text) (ds : List (Text × List ℕ))
      → lookup (sha256 token) seen ≡ some name
      → Seen seen ds
      → Seen seen (insert name (sha256 token) ds)
  unfolding insert
  Seen-add seen name token [] there s = ((there, (token, refl)), tt)
  Seen-add seen name token ((n, d) ∷ ds) there (here, s) = elim (Bool-cases (n == name)) [
    | inl same ↦ rw (same) ((there, (token, refl)), s)
    | inr other ↦ elim (Bool-cases (text_lt name n)) [
      | inl before ↦ rw (other, before) ((there, (token, refl)), (here, s))
      | inr after ↦ rw (other, after) (here, Seen-add seen name token ds there s)
    ]
  ]

  added-Seen :
      (var : Text → Option Text) (known known' : Known) (name token : Text)
      → Seen known.seen known.digests
      → add_token var sha256 known name token ≡ ok known'
      → Seen known'.seen known'.digests
  unfolding add_token
  added-Seen var known known' name [] s h = cc
  added-Seen var known known' name (c ∷ token) s h =
      elim (Option-cases (lookup (sha256 (c ∷ token)) known.seen)) [
        | inr (other, shared) ↦ absurd (ground arith)
        | inl fresh ↦
            subst (λ (k : Known). Seen k.seen k.digests) (ok-inj {E = TokenError} (ground arith))
              (Seen-add (insert (sha256 (c ∷ token)) name known.seen) name (c ∷ token) known.digests
                (ground (
                  arith,
                  lookup-insert (sha256 (c ∷ token)) (sha256 (c ∷ token)) name known.seen,
                  eq_refl (sha256 (c ∷ token)),
                ))
                (Seen-insert known.seen name (c ∷ token) known.digests fresh s))
      ]

  -- What the loop of `resolve` keeps.
  pub resolve_all-Seen :
      (var : Text → Option Text) (principals : List (Text × PrincipalConfig)) (known last : Known)
      → Seen known.seen known.digests
      → resolve_all var sha256 known principals ≡ ok last
      → Seen last.seen last.digests
  unfolding resolve_all
  resolve_all-Seen var [] known last s h = subst (λ (k : Known). Seen k.seen k.digests) (ok-inj h) s
  resolve_all-Seen var ((name, p) ∷ rest) known last s h =
      let (token, resolved, h1) =
        >>=-eq-ok (map_err (unresolved name) (Config.resolve var p.token)) _ h in
      let (known', added, h2) = >>=-eq-ok (add_token var sha256 known name token) _ h1 in
      resolve_all-Seen var rest known' last (added-Seen var known known' name token s added) h2

  -- Digests are sequences of 32 bytes.
  abbrev pub Digests : Type 0
  Digests = (t : Text) → Bytes (sha256 t) × (length (sha256 t) ≡ 32)

  pub Entry-lookup :
      (seen : List (List ℕ × Text)) (name : Text) (d : List ℕ) (ds : List (Text × List ℕ))
      → Seen seen ds
      → Entry name d ds
      → lookup d seen ≡ some name
  Entry-lookup seen name d [] s there = absurd there
  Entry-lookup seen name d ((n, e) ∷ ds) ((here, from), s) (inl (a, b)) = cc
  Entry-lookup seen name d ((n, e) ∷ ds) ((here, from), s) (inr there) =
      Entry-lookup seen name d ds s there

  -- The loop ends on an entry that matches, or with what it had and no entry that does.
  pub last_match-cases :
      (bytes : Digests) (seen : List (List ℕ × Text)) (token : Text) (found : Option Text)
      (ds : List (Text × List ℕ))
      → Seen seen ds
      → ((n : Text) × (last_match (sha256 token) found ds ≡ some n) × (Entry n (sha256 token) ds))
        ⊎ (last_match (sha256 token) found ds ≡ found) × ((n : Text) → ¬ Entry n (sha256 token) ds)
  unfolding last_match
  last_match-cases bytes seen token found [] s = inr (refl, λ n e. e)
  last_match-cases bytes seen token found ((n, d) ∷ ds) ((here, (t, from)), s) =
      let same =
        constant_time_eq_iff (sha256 token) d (bytes token).0 (subst Bytes (sym from) (bytes t).0)
          (ground (arith, bytes token, bytes t, from)) in
      elim (Bool-cases (constant_time_eq (sha256 token) d)) [
        | inl equal ↦ elim (last_match-cases bytes seen token (some n) ds s) [
          | inl (m, e, there) ↦ inl (m, rw (equal) e, inr there)
          | inr (e, nowhere) ↦ inl (n, rw (equal) e, inl (refl, sym (same.0 equal)))
        ]
        | inr other ↦ elim (last_match-cases bytes seen token found ds s) [
          | inl (m, e, there) ↦ inl (m, rw (other) e, inr there)
          | inr (e, nowhere) ↦ inr (
            rw (other) e,
            λ m. elim [
              | inl (a, b) ↦ absurd (ground (arith, same.1 (sym b)))
              | inr there ↦ nowhere m there
            ],
          )
        ]
      ]
