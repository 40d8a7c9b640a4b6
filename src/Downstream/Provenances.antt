-- ===== src/Downstream/Provenances.antt =====
-- src/downstream.rs: what a response reports of where it is from.
use proveno_gateway.Prelude.{
  ℕ, Text, codes, ◌==◌, join, Bool, false, Option, none, some, is_some, List, [], ◌∷◌, ◌++◌, map,
  Result, ok, err, ◌>>=◌, map_err, if◌then◌else◌,
}
use proveno_gateway.Prelude.Map.{lookup, insert}
use proveno_gateway.Prelude.Sort.{sort_by_key}
use proveno_gateway.Json.{Json, Members, object, string, number, Number, members, as_str}
use proveno_gateway.Trace.{Provenance, unsigned, signed, onchain, notarized}

abbrev pub provenance_meta_key : Text
provenance_meta_key = codes "proveno/provenance"

abbrev pub or_blank : Option Text → Text
or_blank none = []
or_blank (some s) = s

-- What the derived serde code of `Provenance` reads and writes: the tagged object with the
-- variant's fields. `number_of` is serde_json's number of a `u64`; `read` is `from_value`.
pub record ProvenanceSerde : Type 0 where
  pub number_of : ℕ → Number
  pub read : Json → Result Provenance Text
  pub write : List (Text × Json) → List ℕ

-- the fields of `to_value`, whose map is sorted by their names
unfoldable pub typed_fields : (ℕ → Number) → Provenance → List (Text × Json)
typed_fields num unsigned = (codes "type", string (codes "unsigned")) ∷ []
typed_fields num (signed by sig) =
    (codes "by", string by)
    ∷ (codes "sig", string sig)
    ∷ (codes "type", string (codes "signed"))
    ∷ []
typed_fields num (onchain chain block reference) =
    (codes "block", number (num block))
    ∷ (codes "chain", string chain)
    ∷ (codes "reference", string reference)
    ∷ (codes "type", string (codes "onchain"))
    ∷ []
typed_fields num (notarized scheme reference) =
    (codes "reference", string reference)
    ∷ (codes "scheme", string scheme)
    ∷ (codes "type", string (codes "notarized"))
    ∷ []

-- the reported fields that the typed value does not have
unfoldable pub unknown_fields : List (Text × Json) → List (Text × Json) → List Text
unknown_fields typed [] = []
unknown_fields typed ((k, v) ∷ reported) =
    let rest = unknown_fields typed reported in if is_some (lookup k typed) then rest else k ∷ rest

abbrev is_blank : Json → Bool
is_blank (string s) = s == []
is_blank _ = false

unfoldable pub blank_field : List (Text × Json) → Option Text
blank_field [] = none
blank_field ((k, v) ∷ fields) = if is_blank v then some k else blank_field fields

-- `fields.iter().collect()` into a `BTreeMap`
unfoldable pub sorted_fields : List (Text × Json) → List (Text × Json)
sorted_fields [] = []
sorted_fields ((k, v) ∷ fields) = insert k v (sorted_fields fields)

pub quoted : Text → Text
quoted k = codes "`" ++ k ++ codes "`"

pub key_message : Text → Text
key_message rest = codes "`" ++ provenance_meta_key ++ codes "`" ++ rest

pub type_name : List (Text × Json) → Text
type_name typed = elim (lookup (codes "type") typed) [ none ↦ [] | some v ↦ or_blank (as_str v) ]

pub undefined_fields : List (Text × Json) → List Text → Text
undefined_fields typed unknown = key_message (
    codes ": `"
    ++ type_name typed
    ++ codes "` does not define field(s) "
    ++ join (codes ", ") (map quoted (sort_by_key (λ k. k) unknown)))

pub empty_field : Text → Text
empty_field field = key_message (codes ": field `" ++ field ++ codes "` is empty")

module _ (ps : ProvenanceSerde) where
  abbrev pub attest : Provenance → List (Text × Json) → List ℕ
  attest unsigned reported = []
  attest (signed by sig) reported = ps.write (sorted_fields reported)
  attest (onchain c b r) reported = ps.write (sorted_fields reported)
  attest (notarized s r) reported = ps.write (sorted_fields reported)

  -- the checks on a report that deserialized
  unfoldable pub check_report : List (Text × Json) → Provenance → Result (Provenance × List ℕ) Text
  check_report reported p =
      let typed = typed_fields ps.number_of p in
      elim (unknown_fields typed reported) [
        | k ∷ ks ↦ err (undefined_fields typed (k ∷ ks))
        | [] ↦ elim (blank_field typed) [
          | some field ↦ err (empty_field field)
          | none ↦ ok (p, attest p reported)
        ]
      ]

  unfoldable pub report : Json → Result (Provenance × List ℕ) Text
  unfolding check_report
  report (object ms) =
      map_err (λ e. key_message (codes ": " ++ e)) (ps.read (object ms))
      >>= check_report (members ms)
  report _ = err (key_message (codes " must be an object"))

  abbrev pub reported_of : Option Members → Option Json
  reported_of none = none
  reported_of (some ms) = lookup provenance_meta_key (members ms)

  unfoldable pub read_provenance : Option Members → Result (Provenance × List ℕ) Text
  unfolding report
  read_provenance meta = elim (reported_of meta) [
    | none ↦ ok (unsigned, [])
    | some reported ↦ report reported
  ]
