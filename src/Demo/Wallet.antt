-- ===== src/Demo/Wallet.antt =====
-- demo/wallet/src/main.rs: a wallet that reads balances and sends transactions.
pub mod Reports
pub mod Balances
pub mod Answers
pub mod Transfers
use Prim.Native.Nat.{◌+◌, ◌*◌, ◌/◌, ◌%◌, ◌^◌}
use proveno_gateway.Prelude.{
  ℕ, ℤ, pos, negsuc, ltb_ℤ, ◌-◌, Text, codes, decimal, ◌==◌, Option, none, some, List, [], ◌∷◌,
  ◌++◌, Result, ok, err, ◌>>=◌, map_err, ok_or, if◌then◌else◌,
}
use proveno_gateway.Json
use proveno_gateway.Json.{Json, Members, object, string, number}
use proveno_gateway.Downstream.{Tool, CallToolResult, text}
use proveno_gateway.Server.{ErrorData, invalid_params}
use proveno_gateway.Demo.{Library, json_object, object_schema, of_type, described, argument}

abbrev pub milli_eth_wei : ℕ
milli_eth_wei = 1000000000000000

abbrev pub key_var : Text
key_var = codes "WALLET_PRIVATE_KEY"

pub record TransactionRequest (Address : Type 0) : Type 0 where
  pub from : Address
  pub to : Address
  pub value : ℕ

pub record Receipt (Hash : Type 0) : Type 0 where
  pub block_number : Option ℕ
  pub transaction_hash : Hash

-- What the wallet uses of alloy, over the state `W` of the chain. A `U256` is its number, `/` its
-- division; `get_balance` is of the state at the block with this hash.
pub record Alloy (W : Type 0) : Type 1 where
  pub Address : Type 0
  pub Hash : Type 0
  pub Pending : Type 0
  pub parse : Text → Result Address Text
  -- the address of the signer with this key
  pub signer_address : Text → Result Address Text
  pub address_text : Address → Text
  pub hash_text : Hash → Text
  pub saturating_to_i64 : ℕ → ℤ
  pub get_chain_id : W → Result ℕ Text × W
  pub get_latest_block : W → Result (Option (ℕ × Hash)) Text × W
  pub get_balance : Address → Hash → W → Result ℕ Text × W
  pub send_transaction : TransactionRequest Address → W → Result Pending Text × W
  pub get_receipt : Pending → W → Result (Receipt Hash) Text × W

-- `amount as u128` of an `i64`
abbrev pub as_u128 : ℤ → ℕ
as_u128 (pos n) = n
as_u128 (negsuc n) = 2 ^ 128 - (n + 1)

-- `amount as u128 * MILLI_ETH_WEI`
unfoldable pub wei_of : ℤ → ℕ
wei_of amount = as_u128 amount * milli_eth_wei % 2 ^ 128

-- `.filter(|a| *a > 0)`
abbrev pub positive : Option ℤ → Option ℤ
positive none = none
positive (some a) = if ltb_ℤ (pos 0) a then some a else none

abbrev pub as_text : Option Json → Option Text
as_text none = none
as_text (some v) = Json.as_str v

abbrev pub as_integer : Option Json → Option ℤ
as_integer none = none
as_integer (some v) = Json.as_i64 v

pub not_an_address : Text → Text
not_an_address name = codes "`" ++ name ++ codes "` must be a 0x-prefixed address"

pub bad_address : Text → Text → Text
bad_address name e = codes "`" ++ name ++ codes "`: " ++ e

pub bad_amount : Text
bad_amount = codes "`amount` must be a positive whole number of milli-ETH"

pub unknown_tool : Text → Text
unknown_tool name = codes "unknown tool `" ++ name ++ codes "`"

transfer_description : Text → Text
transfer_description from =
    codes "Send milli-ETH from "
    ++ from
    ++ codes " to an address, as a signed transaction. "
    ++ from
    ++ codes
        " is the only account this server can send from, set by the credential, so funds cannot be moved towards it with this tool. It also pays the gas fee, so its balance falls by slightly more than `amount` and an exact target balance is not reachable."

key_not_set : Text
key_not_set = key_var ++ codes " is not set; the gateway injects it as this downstream's credential"

bad_key : Text → Text
bad_key e = key_var ++ codes " is not a valid private key: " ++ e

-- `main` up to the connecting: whose wallet it is, or why there is none; `var` is the environment.
pub own_address :
    {W : Type 0} (alloy : Alloy W) → (var : Text → Option Text) → Result alloy.Address Text
own_address alloy var = do
  key ← ok_or key_not_set (var key_var)
  map_err bad_key (alloy.signer_address key)

module _ {W : Type 0} (lib : Library) (alloy : Alloy W) where
  pub tools : alloy.Address → List Tool
  tools from =
      record {
        name = codes "get_balance";
        description = some (codes "Balance of an address, in whole milli-ETH, rounded down.");
        input_schema =
            object_schema
              (object (
                json_object (
                  (codes "address", described (codes "string") (codes "0x-prefixed address."))
                  ∷ [])))
              (codes "address" ∷ []);
        output_schema = some (
            object_schema
              (object (
                json_object (
                  (codes "address", of_type (codes "string"))
                  ∷ (codes "eth_milli", of_type (codes "integer"))
                  ∷ [])))
              (codes "address" ∷ codes "eth_milli" ∷ []));
      }
      ∷ record {
        name = codes "transfer";
        description = some (transfer_description (alloy.address_text from));
        input_schema =
            object_schema
              (object (
                json_object (
                  (codes "to", described (codes "string") (codes "0x-prefixed recipient."))
                  ∷ (codes "amount", described (codes "integer") (codes "Milli-ETH to send."))
                  ∷ [])))
              (codes "to" ∷ codes "amount" ∷ []);
        output_schema = some (
            object_schema
              (object (
                json_object (
                  (codes "tx_hash", of_type (codes "string"))
                  ∷ (codes "amount", of_type (codes "integer"))
                  ∷ [])))
              (codes "tx_hash" ∷ codes "amount" ∷ []));
      }
      ∷ []

  unfoldable pub address : Option Members → Text → Result alloy.Address Text
  address arguments name = do
    s ← ok_or (not_an_address name) (as_text (argument arguments name))
    map_err (bad_address name) (alloy.parse s)

  abbrev pub failed : Text → CallToolResult
  failed message = lib.error (text message ∷ [])

  abbrev pub reported : ℕ → ℕ → alloy.Hash → List (Text × Json)
  reported chain_id block reference =
      (codes "type", string (codes "onchain"))
      ∷ (codes "chain", string (codes "eip155:" ++ decimal chain_id))
      ∷ (codes "block", number (lib.u64_number block))
      ∷ (codes "reference", string (alloy.hash_text reference))
      ∷ []

  unfoldable pub attested : Json → ℕ → ℕ → alloy.Hash → CallToolResult
  attested value chain_id block reference = record (lib.structured value) {
    meta = some (
        json_object (
          (codes "proveno/provenance", object (json_object (reported chain_id block reference)))
          ∷ []));
  }

  abbrev pub balance_json : alloy.Address → ℕ → Json
  balance_json a wei = object (
      json_object (
        (codes "address", string (alloy.address_text a))
        ∷ (
          codes "eth_milli",
          number (lib.i64_number (alloy.saturating_to_i64 (wei / milli_eth_wei))),
        )
        ∷ []))

  abbrev pub transfer_json : alloy.Hash → ℤ → Json
  transfer_json hash amount = object (
      json_object (
        (codes "tx_hash", string (alloy.hash_text hash))
        ∷ (codes "amount", number (lib.i64_number amount))
        ∷ []))

  -- the balance at the block, which is the latest one
  unfoldable pub read_balance : alloy.Address → ℕ → ℕ → alloy.Hash → W → CallToolResult × W
  unfolding attested
  read_balance a chain_id block hash w =
      let (balance, w') = alloy.get_balance a hash w in
      elim balance [
        | err e ↦ (failed (codes "get_balance: " ++ e), w')
        | ok wei ↦ (attested (balance_json a wei) chain_id block hash, w')
      ]

  unfoldable pub balance_at_latest : alloy.Address → ℕ → W → CallToolResult × W
  unfolding read_balance
  balance_at_latest a chain_id w =
      let (latest, w') = alloy.get_latest_block w in
      elim latest [
        | err e ↦ (failed (codes "get_balance: latest block: " ++ e), w')
        | ok none ↦ (failed (codes "get_balance: no latest block"), w')
        | ok (some (block, hash)) ↦ read_balance a chain_id block hash w'
      ]

  unfoldable pub get_balance : Option Members → W → CallToolResult × W
  unfolding balance_at_latest
  get_balance arguments w = elim (address arguments (codes "address")) [
    | err e ↦ (failed e, w)
    | ok a ↦
        let (chain_id, w') = alloy.get_chain_id w in
        elim chain_id [
          | err e ↦ (failed (codes "get_balance: chain id: " ++ e), w')
          | ok id ↦ balance_at_latest a id w'
        ]
  ]

  unfoldable pub transferred : ℕ → ℤ → Result (Receipt alloy.Hash) Text → CallToolResult
  unfolding attested
  transferred chain_id amount (err e) = failed (codes "transfer: " ++ e)
  transferred chain_id amount (ok receipt) = elim receipt.block_number [
    | none ↦ failed (codes "transfer: receipt has no block number")
    | some block ↦
        attested (transfer_json receipt.transaction_hash amount) chain_id block
          receipt.transaction_hash
  ]

  -- `TransactionRequest::default()` with its sender, recipient and value
  abbrev pub transaction : alloy.Address → alloy.Address → ℤ → TransactionRequest alloy.Address
  transaction from to amount = record { from = from; to = to; value = wei_of amount }

  -- the transaction is sent, and what its receipt says
  unfoldable pub send : alloy.Address → alloy.Address → ℤ → ℕ → W → CallToolResult × W
  unfolding transferred
  send from to amount chain_id w =
      let (sent, w1) = alloy.send_transaction (transaction from to amount) w in
      elim sent [
        | err e ↦ (failed (codes "transfer: " ++ e), w1)
        | ok pending ↦
            let (receipt, w2) = alloy.get_receipt pending w1 in
            (transferred chain_id amount receipt, w2)
      ]

  unfoldable pub transfer : alloy.Address → Option Members → W → CallToolResult × W
  unfolding send
  transfer from arguments w = elim (address arguments (codes "to")) [
    | err e ↦ (failed e, w)
    | ok to ↦ elim (positive (as_integer (argument arguments (codes "amount")))) [
      | none ↦ (failed bad_amount, w)
      | some amount ↦
          let (chain_id, w') = alloy.get_chain_id w in
          elim chain_id [
            | err e ↦ (failed (codes "transfer: chain id: " ++ e), w')
            | ok id ↦ send from to amount id w'
          ]
    ]
  ]

  unfoldable pub call_tool :
      alloy.Address → Text → Option Members → W → Result CallToolResult ErrorData × W
  unfolding get_balance transfer
  call_tool from name arguments w =
      if name == codes "get_balance"
      then (let (result, w') = get_balance arguments w in (ok result, w'))
      else if name == codes "transfer"
      then (let (result, w') = transfer from arguments w in (ok result, w'))
      else (err (invalid_params (unknown_tool name)), w)
