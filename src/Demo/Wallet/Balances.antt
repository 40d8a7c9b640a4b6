-- ===== src/Demo/Wallet/Balances.antt =====
-- What the gateway reads of a balance.
use Prim.Native.Nat.{◌+◌, ◌*◌, ◌/◌, ◌^◌, ◌<◌, ◌≤◌}
use proveno_gateway.Prelude.{
  ℕ, ℤ, pos, ltb, ◌∙◌, Text, codes, ◌++◌, Bool-cases, Option, some, [], ◌∷◌, ok, err, Result-cases,
  Option-cases, ◌≡◌, ◌≢◌, ◌⊎◌, refl, ap, inl, inr, arith,
}
use proveno_gateway.Json.{Members, object, string, number, Serde}
use proveno_gateway.Downstream.{CallToolResult, ProvenanceSerde, read_response, Rmcp}
use proveno_gateway.Demo.{Library, json_object}
use proveno_gateway.Demo.Wallet.{
  Alloy, milli_eth_wei, address, failed, attested, balance_json, read_balance, balance_at_latest,
  get_balance,
}
use proveno_gateway.Demo.Wallet.Reports.{
  Constructs, ReadsOnchain, provenance_of, attestation_of, read_response-attested, failed-read,
}

-- Whole milli-ETH, rounded down, or the largest `i64` if there are more.
abbrev pub Rounds : ℕ → ℕ → Type 0
Rounds wei milli =
    (milli * milli_eth_wei ≤ wei)
    × (milli < 2 ^ 63)
    × ((wei < (milli + 1) * milli_eth_wei) ⊎ (milli ≡ 9223372036854775807))

module _ {W : Type 0} (lib : Library) (alloy : Alloy W) where
  -- What was read of the chain for an answer with a balance: the id, the latest block and, at the
  -- hash of that block, the balance; the world is what the last of these left.
  pub record Balance (a : alloy.Address) (w : W) (r : CallToolResult) : Type 0 where
    pub id : ℕ
    pub block : ℕ
    pub hash : alloy.Hash
    pub wei : ℕ
    pub w1 : W
    pub w2 : W
    pub id_read : alloy.get_chain_id w ≡ (ok id, w1)
    pub block_read : alloy.get_latest_block w1 ≡ (ok (some (block, hash)), w2)
    pub wei_read : (alloy.get_balance a hash w2).0 ≡ ok wei
    pub answer : r ≡ attested lib alloy (balance_json lib alloy a wei) id block hash

  pub get_balance-cases :
      (arguments : Option Members) (w : W)
      → ((m : Text) × ((get_balance lib alloy arguments w).0 ≡ failed lib alloy m))
        ⊎ ((a : alloy.Address) × (address lib alloy arguments (codes "address") ≡ ok a)
            × Balance a w (get_balance lib alloy arguments w).0)
  unfolding get_balance balance_at_latest read_balance
  get_balance-cases arguments w =
      elim (Result-cases (address lib alloy arguments (codes "address"))) [
        | inr (e, bad) ↦ inl (e, ground arith)
        | inl (a, good) ↦ elim (Result-cases (alloy.get_chain_id w).0) [
          | inr (e, refused) ↦ inl (codes "get_balance: chain id: " ++ e, ground arith)
          | inl (id, given) ↦
              elim (Result-cases (alloy.get_latest_block (alloy.get_chain_id w).1).0) [
                | inr (e, unread) ↦ inl (codes "get_balance: latest block: " ++ e, ground arith)
                | inl (latest, read) ↦ elim (Option-cases latest) [
                  | inl nowhere ↦ inl (codes "get_balance: no latest block", ground arith)
                  | inr ((block, hash), there) ↦
                      elim (Result-cases
                        (alloy.get_balance a hash
                          (alloy.get_latest_block (alloy.get_chain_id w).1).1).0) [
                            | inr (e, unknown) ↦ inl (codes "get_balance: " ++ e, ground arith)
                            | inl (wei, found) ↦ inr (
                              a,
                              good,
                              record {
                                id = id;
                                block = block;
                                hash = hash;
                                wei = wei;
                                w1 = (alloy.get_chain_id w).1;
                                w2 = (alloy.get_latest_block (alloy.get_chain_id w).1).1;
                                id_read = ground arith;
                                block_read = ground arith;
                                wei_read = found;
                                answer = ground arith;
                              },
                            )
                          ]
                ]
              ]
        ]
      ]

  abbrev pub Saturates : Type 0
  Saturates =
      (n : ℕ)
      → (n < 2 ^ 63 → alloy.saturating_to_i64 n ≡ pos n)
        × (2 ^ 63 ≤ n → alloy.saturating_to_i64 n ≡ pos 9223372036854775807)

  rounded :
      Saturates
      → (wei : ℕ)
      → (milli : ℕ) × (alloy.saturating_to_i64 (wei / milli_eth_wei) ≡ pos milli) × Rounds wei milli
  rounded saturates wei = elim (Bool-cases (ltb (wei / milli_eth_wei) (2 ^ 63))) [
    | inl fits ↦ (
      wei / milli_eth_wei,
      (saturates (wei / milli_eth_wei)).0 (ground arith),
      (omega arith, ground arith, inl (omega arith)),
    )
    | inr over ↦ (
      9223372036854775807,
      (saturates (wei / milli_eth_wei)).1 (ground arith),
      (ground arith, omega arith, inr refl),
    )
  ]

  abbrev pub milli_json : alloy.Address → ℕ → Members
  milli_json a milli = json_object (
      (codes "address", string (alloy.address_text a))
      ∷ (codes "eth_milli", number (lib.i64_number (pos milli)))
      ∷ [])

module _ {W : Type 0} (lib : Library) (alloy : Alloy W) (serde : Serde) (ps : ProvenanceSerde)
    (makes : Constructs lib) (reads : ReadsOnchain lib ps) {V : Type 0} (rmcp : Rmcp V)
    (printed : (h : alloy.Hash) → alloy.hash_text h ≢ []) where
  -- What the gateway reads of a balance.
  pub record Reported (qualified server : Text) (a : alloy.Address) (w : W) (r : CallToolResult)
      : Type 0 where
    pub balance : Balance lib alloy a w r
    pub milli : ℕ
    pub rounds : Rounds balance.wei milli
    pub read :
        read_response serde ps rmcp qualified server r
        ≡ ok (record {
          value = object (milli_json lib alloy a milli);
          provenance = provenance_of lib alloy balance.id balance.block balance.hash;
          attestation = attestation_of lib alloy ps balance.id balance.block balance.hash;
        })

  Balance-Reported :
      (saturates : Saturates lib alloy) (qualified server : Text) (a : alloy.Address) (w : W)
      (r : CallToolResult)
      → Balance lib alloy a w r
      → Reported qualified server a w r
  Balance-Reported saturates qualified server a w r b =
      let (milli, same, rounds) = rounded lib alloy saturates b.wei in
      record {
        balance = b;
        milli = milli;
        rounds = rounds;
        read =
            ap (read_response serde ps rmcp qualified server) b.answer
            ∙ ap
                (λ (n : ℤ). read_response serde ps rmcp qualified server (
                  attested lib alloy
                    (object (
                      json_object (
                        (codes "address", string (alloy.address_text a))
                        ∷ (codes "eth_milli", number (lib.i64_number n))
                        ∷ [])))
                    b.id b.block b.hash))
                same
            ∙ read_response-attested lib alloy serde ps makes reads rmcp printed qualified server
                (milli_json lib alloy a milli) b.id b.block b.hash;
      }

  -- What `get_balance` answers is read by the gateway as an error; or it is read as the balance, in
  -- whole milli-ETH rounded down and at most the largest `i64`, that the asked address had at the
  -- latest block, with onchain provenance that names this chain and this block.
  pub get_balance-Reported :
      (saturates : Saturates lib alloy) (qualified server : Text) (arguments : Option Members)
      (w : W)
      → ((m : Text) × (read_response serde ps rmcp qualified server
              (get_balance lib alloy arguments w).0
            ≡ err m))
        ⊎ ((a : alloy.Address) × (address lib alloy arguments (codes "address") ≡ ok a)
            × Reported qualified server a w (get_balance lib alloy arguments w).0)
  get_balance-Reported saturates qualified server arguments w =
      elim (get_balance-cases lib alloy arguments w) [
        | inl (m, e) ↦ inl (
          _,
          ap (read_response serde ps rmcp qualified server) e
              ∙ failed-read lib alloy serde ps makes reads rmcp printed qualified server m,
        )
        | inr (a, good, b) ↦ inr (
          a,
          good,
          Balance-Reported saturates qualified server a w (get_balance lib alloy arguments w).0 b,
        )
      ]
