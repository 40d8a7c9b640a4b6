-- ===== src/Demo/Wallet/Answers.antt =====
-- What the gateway reads of any answer of the wallet.
use mathlib.Core.List.{append-nil}
use proveno_gateway.Prelude.{
  concat, ℕ, ℤ, ◌∙◌, Text, codes, ◌==◌, ◌++◌, Bool-cases, Option, [], ◌∷◌, ok, err, ok-inj,
  Result-cases, Option-cases, ◌≡◌, ◌≢◌, ◌⊎◌, refl, ap, subst, inl, inr, arith,
}
use proveno_gateway.Json.{Members, object, string, number, Serde}
use proveno_gateway.Downstream.{
  CallToolResult, text, texts, ProvenanceSerde, read_response, ToolResponse, Rmcp,
}
use proveno_gateway.Server.{ErrorData}
use proveno_gateway.Demo.{Library, json_object, argument}
use proveno_gateway.Demo.Wallet.{
  Alloy, address, failed, attested, get_balance, transferred, send, transaction, transfer, positive,
  as_integer, bad_amount, call_tool,
}
use proveno_gateway.Demo.Wallet.Reports.{
  Constructs, ReadsOnchain, provenance_of, read_response-attested, failed-read,
}
use proveno_gateway.Demo.Wallet.Balances.{get_balance-cases}

module _ {W : Type 0} (lib : Library) (alloy : Alloy W) where
  -- The result is an error, or it is attested: the object that was reported, the chain, the block
  -- and the reference.
  record Attested (r : CallToolResult) : Type 0 where
    id : ℕ
    block : ℕ
    hash : alloy.Hash
    ms : Members
    same : r ≡ attested lib alloy (object ms) id block hash

  abbrev Answer : CallToolResult → Type 0
  Answer r = ((m : Text) × (r ≡ failed lib alloy m)) ⊎ Attested r

  send-Answer :
      (from to : alloy.Address) (amount : ℤ) (id : ℕ) (w : W)
      → Answer (send lib alloy from to amount id w).0
  unfolding send transferred
  send-Answer from to amount id w =
      elim (Result-cases (alloy.send_transaction (transaction lib alloy from to amount) w).0) [
        | inr (e, refused) ↦ inl (codes "transfer: " ++ e, ground arith)
        | inl (p, taken) ↦
            let (receipt, w2) =
              alloy.get_receipt p
                (alloy.send_transaction (transaction lib alloy from to amount) w).1 in
            elim (Result-cases receipt) [
              | inr (e, none_yet) ↦ inl (codes "transfer: " ++ e, ground arith)
              | inl (got, there) ↦ elim (Option-cases got.block_number) [
                | inl pending ↦ inl (codes "transfer: receipt has no block number", ground arith)
                | inr (block, mined) ↦ inr (record {
                  id = id;
                  block = block;
                  hash = got.transaction_hash;
                  ms = json_object (
                      (codes "tx_hash", string (alloy.hash_text got.transaction_hash))
                      ∷ (codes "amount", number (lib.i64_number amount))
                      ∷ []);
                  same = ground arith;
                })
              ]
            ]
      ]

  get_balance-Answer :
      (arguments : Option Members) (w : W) → Answer (get_balance lib alloy arguments w).0
  get_balance-Answer arguments w = elim (get_balance-cases lib alloy arguments w) [
    | inl (m, e) ↦ inl (m, e)
    | inr (a, good, b) ↦
        inr (record { id = b.id; block = b.block; hash = b.hash; ms = _; same = b.answer })
  ]

  transfer-Answer :
      (from : alloy.Address) (arguments : Option Members) (w : W)
      → Answer (transfer lib alloy from arguments w).0
  unfolding transfer
  transfer-Answer from arguments w =
      elim (Result-cases (address lib alloy arguments (codes "to"))) [
        | inr (e, bad) ↦ inl (e, ground arith)
        | inl (to, good) ↦
            elim (Option-cases (positive (as_integer (argument arguments (codes "amount"))))) [
              | inl nothing ↦ inl (bad_amount, ground arith)
              | inr (a, there) ↦ elim (Result-cases (alloy.get_chain_id w).0) [
                | inr (e, refused) ↦ inl (codes "transfer: chain id: " ++ e, ground arith)
                | inl (id, given) ↦
                    subst Answer (ground arith) (send-Answer from to a id (alloy.get_chain_id w).1)
              ]
            ]
      ]

module _ {W : Type 0} (lib : Library) (alloy : Alloy W) (serde : Serde) (ps : ProvenanceSerde)
    (makes : Constructs lib) (reads : ReadsOnchain lib ps) {V : Type 0} (rmcp : Rmcp V)
    (printed : (h : alloy.Hash) → alloy.hash_text h ≢ []) where
  -- The result is an error of the wallet, which the gateway reads as its own text; or it is read as a
  -- response whose provenance is onchain, of an EIP-155 chain.
  abbrev pub Accepted : Text → Text → CallToolResult → Type 0
  Accepted qualified server r =
      ((m : Text) × (r ≡ failed lib alloy m)
        × (read_response serde ps rmcp qualified server r ≡ err m))
      ⊎ ((response : ToolResponse) × (id : ℕ) × (block : ℕ) × (hash : alloy.Hash) × (read_response
              serde ps rmcp qualified server r
            ≡ ok response)
          × (response.provenance ≡ provenance_of lib alloy id block hash))

  error-texts : (m : Text) → concat (texts (lib.error (text m ∷ [])).content) ≡ m
  unfolding texts concat
  error-texts m = rw (makes.content (text m ∷ [])) (append-nil m)

  Answer-Accepted :
      (qualified server : Text) (r : CallToolResult)
      → Answer lib alloy r
      → Accepted qualified server r
  Answer-Accepted qualified server r (inl (m, e)) = inl (
    m,
    e,
    ap (read_response serde ps rmcp qualified server) e
        ∙ failed-read lib alloy serde ps makes reads rmcp printed qualified server m
        ∙ ap err (error-texts m),
  )
  Answer-Accepted qualified server r (inr a) = inr (
    _,
    a.id,
    a.block,
    a.hash,
    ap (read_response serde ps rmcp qualified server) a.same
        ∙ read_response-attested lib alloy serde ps makes reads rmcp printed qualified server a.ms
            a.id a.block a.hash,
    refl,
  )

  -- Whatever result a tool of the wallet gives, the gateway does not find its provenance malformed
  -- or missing: the result is an error of the wallet, which the gateway reads as that error, text for
  -- text; or it is read with onchain provenance.
  pub call_tool-Accepted :
      (qualified server : Text) (from : alloy.Address) (name : Text) (arguments : Option Members)
      (w : W) (r : CallToolResult)
      → (call_tool lib alloy from name arguments w).0 ≡ ok r
      → Accepted qualified server r
  unfolding call_tool
  call_tool-Accepted qualified server from name arguments w r h =
      elim (Bool-cases (name == codes "get_balance")) [
        | inl balance ↦
            subst (Accepted qualified server) (ok-inj {E = ErrorData} (ground arith))
              (Answer-Accepted qualified server _ (get_balance-Answer lib alloy arguments w))
        | inr other ↦ elim (Bool-cases (name == codes "transfer")) [
          | inl sending ↦
              subst (Accepted qualified server) (ok-inj {E = ErrorData} (ground arith))
                (Answer-Accepted qualified server _ (transfer-Answer lib alloy from arguments w))
          | inr unknown ↦ absurd (ground arith)
        ]
      ]
