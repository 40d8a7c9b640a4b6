-- ===== src/Demo/Wallet/Reports.antt =====
-- What the gateway reads of the wallet's answers.
use proveno_gateway.Prelude.{
  ℕ, Text, codes, decimal, ◌==◌, ◌++◌, text_lt, Bool-cases, true, false, none, some, List, [], ◌∷◌,
  ok, err, eq_iff, concat, ◌≡◌, ◌≢◌, refl, subst, inl, inr, arith,
}
use proveno_gateway.Prelude.Map.{lookup, insert}
use proveno_gateway.Json.{Json, Number, Members, object, string, number, Serde, members}
use proveno_gateway.Trace.{Provenance, onchain}
use proveno_gateway.Downstream.{
  ContentBlock, text, ProvenanceSerde, typed_fields, sorted_fields, unknown_fields, blank_field,
  reported_of, read_response, Rmcp, texts,
}
use proveno_gateway.Downstream.Reports.{read_provenance-eq-ok}
use proveno_gateway.Downstream.Results.{read_response-structured, read_response-error}
use proveno_gateway.Demo.{Library, json_object}
use proveno_gateway.Demo.Wallet.{Alloy, failed, reported, attested}

-- The constructors of `CallToolResult` make what they are named for.
pub record Constructs (lib : Library) : Type 0 where
  pub structured : (v : Json) → (lib.structured v).structured_content ≡ some v
  pub no_error : (v : Json) → (lib.structured v).is_error ≡ some false
  pub an_error : (c : List ContentBlock) → (lib.error c).is_error ≡ some true
  pub content : (c : List ContentBlock) → (lib.error c).content ≡ c

-- The gateway's reader reads onchain provenance from its fields, in the order of their names, and
-- both sides make one number of a block.
pub record ReadsOnchain (lib : Library) (ps : ProvenanceSerde) : Type 0 where
  pub number : (n : ℕ) → ps.number_of n ≡ lib.u64_number n
  pub read :
      (chain : Text) (block : ℕ) (reference : Text)
      → ps.read (object (json_object (typed_fields ps.number_of (onchain chain block reference))))
        ≡ ok (onchain chain block reference)

module _ {W : Type 0} (lib : Library) (alloy : Alloy W) where
  abbrev pub provenance_of : ℕ → ℕ → alloy.Hash → Provenance
  provenance_of id block hash = onchain (codes "eip155:" ++ decimal id) block (alloy.hash_text hash)

  abbrev sent_report : ℕ → ℕ → alloy.Hash → Members
  sent_report id block hash = json_object (reported lib alloy id block hash)

  abbrev pub attestation_of : ProvenanceSerde → ℕ → ℕ → alloy.Hash → List ℕ
  attestation_of ps id block hash = ps.write (sorted_fields (members (sent_report id block hash)))

module _ {W : Type 0} (lib : Library) (alloy : Alloy W) (serde : Serde) (ps : ProvenanceSerde)
    (makes : Constructs lib) (reads : ReadsOnchain lib ps) {V : Type 0} (rmcp : Rmcp V)
    (printed : (h : alloy.Hash) → alloy.hash_text h ≢ []) where
  no_unknown :
      (id block : ℕ) (hash : alloy.Hash)
      → unknown_fields
          (typed_fields ps.number_of (provenance_of lib alloy id block hash))
          (members (sent_report lib alloy id block hash))
        ≡ []
  unfolding unknown_fields typed_fields sorted_fields insert text_lt ◌==◌ lookup codes
  no_unknown id block hash = refl

  no_blank :
      (id block : ℕ) (hash : alloy.Hash)
      → blank_field (typed_fields ps.number_of (provenance_of lib alloy id block hash)) ≡ none
  unfolding blank_field typed_fields codes ◌==◌
  no_blank id block hash = elim (Bool-cases (alloy.hash_text hash == [])) [
    | inl blank ↦ absurd (printed hash ((eq_iff (alloy.hash_text hash) []).0 blank))
    | inr there ↦ ground arith
  ]

  read_sent :
      (id block : ℕ) (hash : alloy.Hash)
      → ps.read (object (sent_report lib alloy id block hash))
        ≡ ok (provenance_of lib alloy id block hash)
  unfolding typed_fields sorted_fields insert text_lt ◌==◌ codes
  read_sent id block hash =
      subst
        (λ (n : Number).
          ps.read (
            object (
              json_object (
                (codes "block", number n)
                ∷ (codes "chain", string (codes "eip155:" ++ decimal id))
                ∷ (codes "reference", string (alloy.hash_text hash))
                ∷ (codes "type", string (codes "onchain"))
                ∷ [])))
          ≡ ok (provenance_of lib alloy id block hash))
        (reads.number block)
        (reads.read (codes "eip155:" ++ decimal id) block (alloy.hash_text hash))

  reported_of-attested :
      (v : Json) (id block : ℕ) (hash : alloy.Hash)
      → reported_of ps (attested lib alloy v id block hash).meta
        ≡ some (object (sent_report lib alloy id block hash))
  unfolding attested lookup ◌==◌ codes sorted_fields insert
  reported_of-attested v id block hash = refl

  -- A structured result with a report is read with onchain provenance.
  pub read_response-attested :
      (qualified server : Text) (ms : Members) (id block : ℕ) (hash : alloy.Hash)
      → read_response serde ps rmcp qualified server (attested lib alloy (object ms) id block hash)
        ≡ ok (record {
          value = object ms;
          provenance = provenance_of lib alloy id block hash;
          attestation = attestation_of lib alloy ps id block hash;
        })
  unfolding attested
  read_response-attested qualified server ms id block hash =
      read_response-structured serde (attested lib alloy (object ms) id block hash) rmcp ps
        qualified server ms (provenance_of lib alloy id block hash)
        (attestation_of lib alloy ps id block hash) (makes.no_error (object ms))
        (makes.structured (object ms))
        (read_provenance-eq-ok ps (attested lib alloy (object ms) id block hash).meta
          (sent_report lib alloy id block hash) (provenance_of lib alloy id block hash)
          (reported_of-attested (object ms) id block hash) (read_sent id block hash)
          (no_unknown id block hash) (no_blank id block hash))

  pub failed-read :
      (qualified server m : Text)
      → read_response serde ps rmcp qualified server (failed lib alloy m)
        ≡ err (concat (texts (lib.error (text m ∷ [])).content))
  failed-read qualified server m =
      read_response-error serde (failed lib alloy m) rmcp ps qualified server
        (makes.an_error (text m ∷ []))
