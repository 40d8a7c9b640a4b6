-- ===== src/Prelude/Map.antt =====
-- `BTreeMap<String, V>` as the list of its entries in the order of their keys.
use mathlib.Core.Path.{◌≡◌, refl}
use mathlib.Core.Bool.{Bool, true, false}
use mathlib.Core.Option.{Option, none, some}
use mathlib.Core.List.{List, [], ◌∷◌}
use native.Mathlib.Omega.{arith}
use proveno_gateway.Prelude.Tests.{if◌then◌else◌}
use proveno_gateway.Prelude.Texts.{Text, ◌==◌, eq_iff, text_lt}

module _ {ℓ} {V : Type ℓ} where
  unfoldable pub lookup : Text → List (Text × V) → Option V
  lookup k [] = none
  lookup k ((j, v) ∷ m) = if j == k then some v else lookup k m

  unfoldable pub insert : Text → V → List (Text × V) → List (Text × V)
  insert k v [] = (k, v) ∷ []
  insert k v ((j, w) ∷ m) =
      let rest = insert k v m in
      if j == k then (k, v) ∷ m else if text_lt k j then (k, v) ∷ (j, w) ∷ m else (j, w) ∷ rest

  -- `remove`
  unfoldable pub remove : Text → List (Text × V) → List (Text × V)
  remove k [] = []
  remove k ((j, w) ∷ m) = let rest = remove k m in if j == k then rest else (j, w) ∷ rest

  pub lookup-remove :
      (k j : Text) (m : List (Text × V))
      → lookup j (remove k m) ≡ (if k == j then none else lookup j m)
  unfolding lookup remove
  lookup-remove k j [] = ground arith
  lookup-remove k j ((i, w) ∷ m) =
      ground (arith, eq_iff k j, eq_iff i k, eq_iff i j, lookup-remove k j m)

  pub lookup-insert :
      (key other : Text) (new : V) (entries : List (Text × V))
      → lookup other (insert key new entries)
        ≡ (if key == other then some new else lookup other entries)
  unfolding lookup insert
  lookup-insert key other new [] = refl
  lookup-insert key other new ((first, old) ∷ entries) = ground (
    arith,
    eq_iff first key,
    eq_iff first other,
    eq_iff key other,
    lookup-insert key other new entries,
  )

-- `BTreeSet<String>`, and `contains` of any sequence of texts.
unfoldable pub contains : Text → List Text → Bool
contains k [] = false
contains k (j ∷ m) = if j == k then true else contains k m

unfoldable pub insert_key : Text → List Text → List Text
insert_key k [] = k ∷ []
insert_key k (j ∷ m) =
    let rest = insert_key k m in
    if j == k then j ∷ m else if text_lt k j then k ∷ j ∷ m else j ∷ rest

-- `collect()` into a set
unfoldable pub key_set : List Text → List Text
unfolding insert_key
key_set [] = []
key_set (k ∷ ks) = insert_key k (key_set ks)

pub contains-insert_key :
    (k j : Text) (m : List Text)
    → contains j (insert_key k m) ≡ (if k == j then true else contains j m)
unfolding contains insert_key
contains-insert_key k j [] = refl
contains-insert_key k j (i ∷ m) =
    ground (arith, eq_iff k j, eq_iff i k, eq_iff i j, contains-insert_key k j m)

pub contains-key_set : (j : Text) (ks : List Text) → contains j (key_set ks) ≡ contains j ks
unfolding contains key_set
contains-key_set j [] = refl
contains-key_set j (k ∷ ks) =
    ground (arith, contains-insert_key k j (key_set ks), contains-key_set j ks)
