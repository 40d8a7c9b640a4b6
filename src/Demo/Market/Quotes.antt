-- ===== src/Demo/Market/Quotes.antt =====
-- Which requests the market answers, and with what.
use proveno_gateway.Prelude.{
  Text, codes, ◌==◌, eq_iff, eq_refl, strip_prefix, Option, Option-cases, none, some, List, [], ◌∷◌,
  ◌++◌, ok, ◌≡◌, ◌↔◌, ◌⊎◌, inl, inr, refl, if◌then◌else◌, arith, ap,
}
use proveno_gateway.Prelude.Map.{lookup, insert, lookup-insert}
use proveno_gateway.Json
use proveno_gateway.Json.{Json, Members, object, string, null, members, from_members}
use proveno_gateway.Downstream.{text}
use proveno_gateway.Server.{answer, passed_on}
use proveno_gateway.Demo.{Library}
use proveno_gateway.Demo.Market.{set_member, get_price, require_bearer, serve, unknown_pair}

strip_prefix-append : (p s : Text) → strip_prefix (p ++ s) p ≡ some s
unfolding strip_prefix
strip_prefix-append [] [] = refl
strip_prefix-append [] (x ∷ s) = refl
strip_prefix-append (c ∷ p) s = ground (arith, strip_prefix-append p s)

strip_prefix-eq-some : (s p r : Text) → strip_prefix s p ≡ some r → s ≡ p ++ r
unfolding strip_prefix
strip_prefix-eq-some s [] r h = ground arith
strip_prefix-eq-some [] (c ∷ p) r h = cc
strip_prefix-eq-some (x ∷ s) (c ∷ p) r h = ground (arith, strip_prefix-eq-some s p r)

require_bearer_iff :
    {R : Type 0} (expected : Text) (next : R) (header : Option Text)
    → (require_bearer expected next header ≡ passed_on next)
      ↔ (header ≡ some (codes "Bearer " ++ expected))
unfolding require_bearer
require_bearer_iff expected next none = (λ h. cc, λ h. cc)
require_bearer_iff expected next (some value) =
    elim (Option-cases (strip_prefix value (codes "Bearer "))) [
      | inl e ↦ (
        λ h. absurd (ground arith),
        λ h. absurd (ground (arith, strip_prefix-append (codes "Bearer ") expected)),
      )
      | inr (token, e) ↦ (
        λ h.
            ground
              (arith, strip_prefix-eq-some value (codes "Bearer ") token, eq_iff token expected),
        λ h. ground (arith, strip_prefix-append (codes "Bearer ") expected, eq_refl expected),
      )
    ]

-- A request passes exactly if `MARKET_TOKEN` is not set, or the `Authorization` header is "Bearer "
-- and that token, to the letter.
pub serve_iff :
    {R : Type 0} (token : Option Text) (next : R) (header : Option Text)
    → (serve token next header ≡ passed_on next) ↔ (
        (token ≡ none)
        ⊎ ((expected : Text) × (token ≡ some expected)
            × (header ≡ some (codes "Bearer " ++ expected))))
unfolding serve
serve_iff none next header = (λ h. inl refl, λ h. refl)
serve_iff (some expected) next header =
    let same = require_bearer_iff expected next header in
    (
      λ h. inr (expected, refl, same.0 h),
      elim [ inl e ↦ absurd (cc) | inr (e, a, b) ↦ same.1 (ground arith) ],
    )

members-from_members : (xs : List (Text × Json)) → members (from_members xs) ≡ xs
members-from_members [] = refl
members-from_members ((k, v) ∷ xs) = ap (λ l. (k, v) ∷ l) (members-from_members xs)

-- What `[]` can be written into.
abbrev pub Settable : Json → Type 0
Settable quote = ((ms : Members) × (quote ≡ object ms)) ⊎ (quote ≡ null)

-- The quote with the pair in it.
pub record Quoted (pair : Text) (quote : Json) (response : Members) : Type 0 where
  pub others :
      (k : Text)
      → lookup k (members response)
        ≡ (if codes "pair" == k then some (string pair) else Json.get k quote)

set_member-Quoted :
    (pair : Text) (quote : Json)
    → Settable quote
    → (response : Members) × (set_member (codes "pair") (string pair) quote
        ≡ some (object response))
      × Quoted pair quote response
unfolding set_member Json.get lookup
set_member-Quoted pair quote (inl (ms, e)) =
    let entries = insert (codes "pair") (string pair) (members ms) in
    (
      from_members entries,
      ground (arith, e),
      record {
        others = λ k. ground (
          arith,
          e,
          members-from_members entries,
          lookup-insert (codes "pair") k (string pair) (members ms),
        );
      },
    )
set_member-Quoted pair quote (inr e) = (
  from_members ((codes "pair", string pair) ∷ []),
  ground (arith, e),
  record { others = λ k. ground (arith, e) },
)

module _ (lib : Library) (prices : List (Text × Json)) where
  -- Over a price file whose quotes are objects or null, a request for a price is answered with an
  -- error that names the pair, if the file has none of it; and else with the quote of the pair, whose
  -- fields are as in the file but for `pair`, which is the pair. It does not panic.
  pub get_price-Quoted :
      (settable : (pair : Text) (quote : Json) → lookup pair prices ≡ some quote → Settable quote)
      (pair : Text)
      → ((lookup pair prices ≡ none)
          × (get_price lib prices pair ≡ answer (ok (lib.error (text (unknown_pair pair) ∷ [])))))
        ⊎ ((quote : Json) × (response : Members) × (lookup pair prices ≡ some quote)
            × Quoted pair quote response
            × (get_price lib prices pair ≡ answer (ok (lib.structured (object response)))))
  unfolding get_price
  get_price-Quoted settable pair = elim (Option-cases (lookup pair prices)) [
    | inl nowhere ↦ inl (nowhere, ground arith)
    | inr (quote, there) ↦
        let (response, e, quoted) = set_member-Quoted pair quote (settable pair quote there) in
        inr (quote, response, there, quoted, ground arith)
  ]
