-- ===== src/Downstream/Reports.antt =====
-- Which reports of provenance are taken.
use proveno_gateway.Prelude.{
  ℕ, Text, true, Bool-cases, Option, Option-cases, none, some, is_some, List, [], ◌∷◌, All, ok,
  map_err, >>=-eq-ok, map_err-eq-ok, ok-inj, eq_iff, Path, subst, ◌≡◌, ◌≢◌, ◌⊎◌, refl, inl, inr,
  arith,
}
use proveno_gateway.Prelude.Map.{lookup}
use proveno_gateway.Json.{Json, Number, Members, object, members}
use proveno_gateway.Trace.{Provenance, unsigned, signed, onchain, notarized}
use proveno_gateway.Downstream.{
  ProvenanceSerde, typed_fields, unknown_fields, blank_field, read_provenance, report, check_report,
  reported_of, attest,
}

-- No text of the provenance is empty.
abbrev pub Complete : Provenance → Type 0
Complete unsigned = Unit
Complete (signed by sig) = (by ≢ []) × (sig ≢ [])
Complete (onchain chain block reference) = (chain ≢ []) × (reference ≢ [])
Complete (notarized scheme reference) = (scheme ≢ []) × (reference ≢ [])

blank_field-Complete :
    (num : ℕ → Number) (p : Provenance) → blank_field (typed_fields num p) ≡ none → Complete p
unfolding blank_field typed_fields
blank_field-Complete num unsigned h = tt
blank_field-Complete num (signed by sig) h =
    (λ e. ground (arith, eq_iff by []), λ e. ground (arith, eq_iff sig []))
blank_field-Complete num (onchain c b r) h =
    (λ e. ground (arith, eq_iff c []), λ e. ground (arith, eq_iff r []))
blank_field-Complete num (notarized s r) h =
    (λ e. ground (arith, eq_iff s []), λ e. ground (arith, eq_iff r []))

-- Each field is one of the type.
abbrev pub Known : List (Text × Json) → List (Text × Json) → Type 0
Known typed = All (λ (f : Text × Json). is_some (lookup f.0 typed) ≡ true)

unknown_fields-Known :
    (typed reported : List (Text × Json))
    → unknown_fields typed reported ≡ []
    → Known typed reported
unfolding unknown_fields
unknown_fields-Known typed [] h = tt
unknown_fields-Known typed ((k, v) ∷ reported) h = elim (Bool-cases (is_some (lookup k typed))) [
  | inl known ↦ (known, unknown_fields-Known typed reported (ground arith))
  | inr other ↦ absurd (ground arith)
]

-- What makes a report one that is taken.
pub record Taken (ps : ProvenanceSerde) (meta : Option Members) (p : Provenance)
    (attestation : List ℕ) : Type 0 where
  pub ms : Members
  pub there : reported_of ps meta ≡ some (object ms)
  pub typed : ps.read (object ms) ≡ ok p
  pub known : Known (typed_fields ps.number_of p) (members ms)
  pub complete : Complete p
  pub attested : attestation ≡ attest ps p (members ms)

List-cases : (xs : List Text) → (xs ≡ []) ⊎ ((x : Text) × (rest : List Text) × (xs ≡ x ∷ rest))
List-cases [] = inl refl
List-cases (x ∷ rest) = inr (x, rest, refl)

check_report-Taken :
    (ps : ProvenanceSerde) (meta : Option Members) (ms : Members) (p q : Provenance)
    (attestation : List ℕ)
    → reported_of ps meta ≡ some (object ms)
    → ps.read (object ms) ≡ ok q
    → check_report ps (members ms) q ≡ ok (p, attestation)
    → Taken ps meta p attestation
unfolding check_report
check_report-Taken ps meta ms p q attestation there typed h =
    elim (List-cases (unknown_fields (typed_fields ps.number_of q) (members ms))) [
      | inr (k, ks, e) ↦ absurd (ground arith)
      | inl e ↦ elim (Option-cases (blank_field (typed_fields ps.number_of q))) [
        | inr (field, f) ↦ absurd (ground arith)
        | inl f ↦
            let same : Path (Provenance × List ℕ) (q, attest ps q (members ms)) (p, attestation) =
              ok-inj {E = Text} (ground arith) in
            subst (λ (x : Provenance × List ℕ). Taken ps meta x.0 x.1) same
              (record {
                ms = ms;
                there = there;
                typed = typed;
                known = unknown_fields-Known _ (members ms) e;
                complete = blank_field-Complete ps.number_of q f;
                attested = refl;
              })
      ]
    ]

report-Taken :
    (ps : ProvenanceSerde) (meta : Option Members) (v : Json) (p : Provenance)
    (attestation : List ℕ)
    → reported_of ps meta ≡ some v
    → report ps v ≡ ok (p, attestation)
    → Taken ps meta p attestation
unfolding report
report-Taken ps meta (object ms) p attestation there h =
    let (q, typed, rest) = >>=-eq-ok (map_err _ (ps.read (object ms))) _ h in
    check_report-Taken ps meta ms p q attestation there (map_err-eq-ok _ _ typed) rest
report-Taken ps meta _ p attestation there h = cc

-- Provenance that is read is either that of a response that reports none, unsigned and with no
-- attestation; or it is the typed form of the reported object, every field of which the type
-- defines, no text of it is empty, and the attestation is that of the object.
pub read_provenance-Taken :
    (ps : ProvenanceSerde) (meta : Option Members) (p : Provenance) (attestation : List ℕ)
    → read_provenance ps meta ≡ ok (p, attestation)
    → ((reported_of ps meta ≡ none) × (p ≡ unsigned) × (attestation ≡ []))
      ⊎ Taken ps meta p attestation
unfolding read_provenance
read_provenance-Taken ps meta p attestation h = elim (Option-cases (reported_of ps meta)) [
  | inl nowhere ↦ inl (nowhere, ground arith, ground arith)
  | inr (v, there) ↦ inr (report-Taken ps meta v p attestation there (ground arith))
]

-- A report that is typed, has no other field and no empty one is taken.
pub read_provenance-eq-ok :
    (ps : ProvenanceSerde) (meta : Option Members) (ms : Members) (p : Provenance)
    → reported_of ps meta ≡ some (object ms)
    → ps.read (object ms) ≡ ok p
    → unknown_fields (typed_fields ps.number_of p) (members ms) ≡ []
    → blank_field (typed_fields ps.number_of p) ≡ none
    → read_provenance ps meta ≡ ok (p, attest ps p (members ms))
unfolding read_provenance report check_report
read_provenance-eq-ok ps meta ms p there typed known complete = ground arith
