-- ===== src/Demo/Wallet/Transfers.antt =====
-- Which transactions the wallet sends.
use Prim.Native.Nat.{◌*◌, ◌^◌, ◌<◌}
use proveno_gateway.Prelude.{
  ℕ, ℤ, pos, negsuc, ltb_ℤ, codes, Bool-cases, Option, Option-cases, none, some, ok, Result-cases,
  ◌≡◌, ◌⊎◌, refl, subst, inl, inr, arith,
}
use proveno_gateway.Json.{Json, Members}
use proveno_gateway.Demo.{Library, argument}
use proveno_gateway.Demo.Wallet.{
  Alloy, TransactionRequest, milli_eth_wei, wei_of, positive, as_integer, address, send, transfer,
  transaction,
}

-- The integers of `serde_json` that `as_i64` gives are those of 64 bits.
abbrev pub I64 : Option Json → Type 0
I64 v = (n : ℕ) → as_integer v ≡ some (pos n) → n < 2 ^ 63

wei_of-pos : (n : ℕ) → n < 2 ^ 63 → wei_of (pos n) ≡ n * milli_eth_wei
unfolding wei_of
wei_of-pos n small = omega arith

positive-eq-some :
    (o : Option ℤ) (a : ℤ)
    → positive o ≡ some a
    → (n : ℕ) × (o ≡ some (pos n)) × (a ≡ pos n) × (0 < n)
positive-eq-some none a h = cc
positive-eq-some (some (negsuc n)) a h = absurd (ground arith)
positive-eq-some (some (pos n)) a h = elim (Bool-cases (ltb_ℤ (pos 0) (pos n))) [
  | inl above ↦ (n, refl, ground arith, ground arith)
  | inr below ↦ absurd (ground arith)
]

module _ {W : Type 0} (lib : Library) (alloy : Alloy W) (from : alloy.Address) where
  -- One transaction was sent: from the own account, to the address and of the amount that the
  -- arguments say, and then the chain was at most asked for the receipt.
  pub record Sent (arguments : Option Members) (w w' : W) : Type 0 where
    pub to : alloy.Address
    pub amount : ℕ
    pub to_there : address lib alloy arguments (codes "to") ≡ ok to
    pub amount_there : as_integer (argument arguments (codes "amount")) ≡ some (pos amount)
    pub positive : 0 < amount
    pub before : W
    pub asked : before ≡ (alloy.get_chain_id w).1
    pub tx : TransactionRequest alloy.Address
    pub tx_from : tx.from ≡ from
    pub tx_to : tx.to ≡ to
    pub tx_value : tx.value ≡ amount * milli_eth_wei
    pub after :
        (w' ≡ (alloy.send_transaction tx before).1)
        ⊎ ((p : alloy.Pending) × (w'
              ≡ (alloy.get_receipt p (alloy.send_transaction tx before).1).1))

  sent_after :
      (to : alloy.Address) (amount : ℤ) (id : ℕ) (w : W)
      → ((send lib alloy from to amount id w).1
          ≡ (alloy.send_transaction (transaction lib alloy from to amount) w).1)
        ⊎ ((p : alloy.Pending) × ((send lib alloy from to amount id w).1
              ≡ (alloy.get_receipt p
                  (alloy.send_transaction (transaction lib alloy from to amount) w).1).1))
  unfolding send
  sent_after to amount id w =
      elim (Result-cases (alloy.send_transaction (transaction lib alloy from to amount) w).0) [
        | inr (e, refused) ↦ inl (ground arith)
        | inl (p, taken) ↦ inr (p, ground arith)
      ]

  sent_is :
      (arguments : Option Members) (to : alloy.Address) (amount : ℤ) (id : ℕ) (w : W)
      → address lib alloy arguments (codes "to") ≡ ok to
      → positive (as_integer (argument arguments (codes "amount"))) ≡ some amount
      → (alloy.get_chain_id w).0 ≡ ok id
      → (send lib alloy from to amount id (alloy.get_chain_id w).1).1
        ≡ (transfer lib alloy from arguments w).1
  unfolding transfer
  sent_is arguments to amount id w good there given = ground arith

  -- A transfer either leaves the chain as it was but for the question for its id, or sends one
  -- transaction, from the own account to the address of the arguments, whose value is the amount of
  -- the arguments in wei, with no overflow, and the amount is positive.
  pub transfer-Sent :
      (arguments : Option Members) (w : W)
      → I64 (argument arguments (codes "amount"))
      → ((transfer lib alloy from arguments w).1 ≡ w)
        ⊎ ((transfer lib alloy from arguments w).1 ≡ (alloy.get_chain_id w).1)
        ⊎ Sent arguments w (transfer lib alloy from arguments w).1
  unfolding transfer
  transfer-Sent arguments w small = elim (Result-cases (address lib alloy arguments (codes "to"))) [
    | inr (e, bad) ↦ inl (ground arith)
    | inl (to, good) ↦
        elim (Option-cases (positive (as_integer (argument arguments (codes "amount"))))) [
          | inl nothing ↦ inl (ground arith)
          | inr (a, there) ↦
              let (n, read, same, above) =
                positive-eq-some (as_integer (argument arguments (codes "amount"))) a there in
              elim (Result-cases (alloy.get_chain_id w).0) [
                | inr (e, refused) ↦ inr (inl (ground arith))
                | inl (id, given) ↦ inr (
                    inr (record {
                      to = to;
                      amount = n;
                      to_there = good;
                      amount_there = read;
                      positive = above;
                      before = (alloy.get_chain_id w).1;
                      asked = refl;
                      tx = transaction lib alloy from to a;
                      tx_from = refl;
                      tx_to = refl;
                      tx_value = ground (arith, wei_of-pos n (small n read));
                      after =
                          subst
                            (λ (last : W).
                              (last
                                ≡ (alloy.send_transaction (transaction lib alloy from to a)
                                    (alloy.get_chain_id w).1).1)
                              ⊎ ((p : alloy.Pending) × (last
                                    ≡ (alloy.get_receipt p
                                        (alloy.send_transaction (transaction lib alloy from to a)
                                          (alloy.get_chain_id w).1).1).1)))
                            (sent_is arguments to a id w good there given)
                            (sent_after to a id (alloy.get_chain_id w).1);
                    }))
              ]
        ]
  ]
