-- ===== src/Examples/Servers.antt =====
-- The demo servers and the client, over a small chain and a small reader of provenance.
use Prim.Native.Nat.{◌^◌, suc}
use proveno_gateway.Prelude.{
  ℕ, ℤ, pos, ltb, Text, codes, decimal, ◌==◌, text_lt, true, false, Bool, Option, none, some, List,
  [], ◌++◌, Result, ok, err, ◌≡◌, ◌≢◌, ◌⊎◌, refl, arith, if◌then◌else◌,
}
use proveno_gateway.Prelude.Map.{lookup, insert}
use proveno_gateway.Json
use proveno_gateway.Json.{Json, Number, Members, member, object, string, number, members}
use proveno_gateway.Trace.{Provenance, onchain}
use proveno_gateway.Downstream.{
  CallToolResult, ContentBlock, ProvenanceSerde, typed_fields, sorted_fields, read_response,
}
use proveno_gateway.Demo.{Library, argument}
use proveno_gateway.Demo.Wallet
use proveno_gateway.Demo.Wallet.{Alloy, milli_eth_wei, address}
use proveno_gateway.Demo.Wallet.Reports.{Constructs, ReadsOnchain}
use proveno_gateway.Demo.Wallet.Balances.{Saturates, Reported, get_balance-Reported}
use proveno_gateway.Demo.Wallet.Answers.{Accepted, call_tool-Accepted}
use proveno_gateway.Demo.Wallet.Transfers.{I64, Sent, transfer-Sent}
use proveno_gateway.Examples.World.{serde, rmcp}

abbrev pub result_of : Option Json → Bool → List ContentBlock → CallToolResult
result_of v is_error content = record {
  content = content;
  structured_content = v;
  is_error = some is_error;
  meta = none;
}

abbrev pub lib : Library
lib = record {
  structured = λ v. result_of (some v) false [];
  error = λ content. result_of none true content;
  i64_number = λ n. record { as_i64 = some n; as_u64 = none; text = [] };
  u64_number = λ n. record { as_i64 = none; as_u64 = some n; text = [] };
  index_panic = λ key v. codes "bad index";
}

lib-Constructs : Constructs lib
lib-Constructs = record {
  structured = λ v. refl;
  no_error = λ v. refl;
  an_error = λ c. refl;
  content = λ c. refl;
}

abbrev block_of : Option Json → ℕ
block_of (some (number n)) = elim n.as_u64 [ none ↦ 0 | some b ↦ b ]
block_of _ = 0

abbrev pub text_of : Option Json → Text
text_of (some (string s)) = s
text_of _ = []

unfoldable read_onchain : Json → Result Provenance Text
unfolding Json.get
read_onchain v = ok (
    onchain (text_of (Json.get (codes "chain") v)) (block_of (Json.get (codes "block") v))
      (text_of (Json.get (codes "reference") v)))

abbrev reader : ProvenanceSerde
reader = record { number_of = lib.u64_number; read = read_onchain; write = λ fields. [] }

reader-ReadsOnchain : ReadsOnchain lib reader
unfolding read_onchain Json.get typed_fields sorted_fields insert text_lt ◌==◌ lookup codes
reader-ReadsOnchain = record { number = λ n. refl; read = λ chain block reference. refl }

abbrev saturating : ℕ → ℤ
saturating n = if ltb n (2 ^ 63) then pos n else pos 9223372036854775807

-- a chain whose state counts the questions to it, on which everyone has 2.5 milli-ETH
abbrev chain : Alloy ℕ
chain = record {
  Address = Text;
  Hash = ℕ;
  Pending = Text;
  parse = ok;
  signer_address = ok;
  address_text = λ a. a;
  hash_text = λ h. codes "0x" ++ decimal h;
  saturating_to_i64 = saturating;
  get_chain_id = λ w. (ok 31337, suc w);
  get_latest_block = λ w. (ok (some (7, 9)), suc w);
  get_balance = λ a hash w. (ok 2500000000000000, suc w);
  send_transaction = λ tx w. (ok tx.to, suc w);
  get_receipt = λ p w. (ok (record { block_number = some 8; transaction_hash = 4 }), suc w);
}

chain-printed : (h : ℕ) → chain.hash_text h ≢ []
unfolding codes
chain-printed h e = cc

chain-Saturates : Saturates lib chain
chain-Saturates n = (λ h. ground arith, λ h. ground arith)

abbrev asked : Option Members
asked = some (member (codes "address") (string (codes "0xab")) Json.end)

abbrev server : Text
server = codes "wallet"

get_balance-Reported_example :
    ((m : Text) × (read_response serde reader rmcp server server
          (Wallet.get_balance lib chain asked 0).0
        ≡ err m))
    ⊎ ((a : Text) × (address lib chain asked (codes "address") ≡ ok a)
        × Reported lib chain serde reader lib-Constructs reader-ReadsOnchain rmcp chain-printed
            server server a 0
            (Wallet.get_balance lib chain asked 0).0)
get_balance-Reported_example =
    get_balance-Reported lib chain serde reader lib-Constructs reader-ReadsOnchain rmcp
      chain-printed chain-Saturates server server asked 0

abbrev order : Option Members
order = some (
    member (codes "to") (string (codes "0xab"))
      (member (codes "amount") (number (lib.i64_number (pos 5))) Json.end))

order-I64 : I64 (argument order (codes "amount"))
unfolding Json.get lookup ◌==◌ codes
order-I64 n h = ground arith

transfer-Sent_example :
    ((Wallet.transfer lib chain (codes "0xcd") order 0).1 ≡ 0)
    ⊎ ((Wallet.transfer lib chain (codes "0xcd") order 0).1 ≡ 1)
    ⊎ Sent lib chain (codes "0xcd") order 0 (Wallet.transfer lib chain (codes "0xcd") order 0).1
transfer-Sent_example = transfer-Sent lib chain (codes "0xcd") order 0 order-I64

-- the order above is carried out
sent_order : (Wallet.transfer lib chain (codes "0xcd") order 0).1 ≡ 3
unfolding Wallet.transfer address Json.get lookup ◌==◌ codes
sent_order = refl

abbrev balance_result : CallToolResult
balance_result = (Wallet.get_balance lib chain asked 0).0

balance_answered :
    (Wallet.call_tool lib chain (codes "0xcd") (codes "get_balance") asked 0).0 ≡ ok balance_result
unfolding Wallet.call_tool ◌==◌ codes
balance_answered = refl

call_tool-Accepted_example :
    Accepted lib chain serde reader lib-Constructs reader-ReadsOnchain rmcp chain-printed server
      server balance_result
call_tool-Accepted_example =
    call_tool-Accepted lib chain serde reader lib-Constructs reader-ReadsOnchain rmcp chain-printed
      server server (codes "0xcd") (codes "get_balance") asked 0 balance_result balance_answered
