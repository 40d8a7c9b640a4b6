-- ===== src/Prelude/Sort.antt =====
-- `sort_by_key` with a text as the key: a stable sort, here by insertion.
use mathlib.Core.List.{List, [], ◌∷◌, Pairwise, Permᴰ, mem-cons_self}
use mathlib.Core.List.Perm
use mathlib.Core.HLevel.{¬_prop}
use mathlib.Core.Path.{◌≡◌, refl, sym, ◌∙◌}
use mathlib.Core.Logic.{◌≢◌}
use native.Mathlib.Omega.{arith}
use mathlib.Core.Logic.{inl, inr}
use proveno_gateway.Prelude.Lists.{All}
use proveno_gateway.Prelude.Tests.{if◌then◌else◌, Bool-cases}
use proveno_gateway.Prelude.Texts.{Text, text_lt, text_lt_asymm, text_lt_total, text_lt_trans}

module _ {ℓ} {A : Type ℓ} (key : A → Text) where
  -- in front of the first element whose key is not below
  insert_by : A → List A → List A
  insert_by x [] = x ∷ []
  insert_by x (y ∷ ys) =
      let rest = insert_by x ys in if text_lt (key y) (key x) then y ∷ rest else x ∷ y ∷ ys

  unfoldable pub sort_by_key : List A → List A
  unfolding insert_by
  sort_by_key [] = []
  sort_by_key (x ∷ xs) = insert_by x (sort_by_key xs)

  insert_by_comm :
      (x y : A) (l : List A)
      → key x ≢ key y
      → insert_by x (insert_by y l) ≡ insert_by y (insert_by x l)
  unfolding insert_by
  insert_by_comm x y [] h =
      ground (arith, text_lt_asymm (key x) (key y), text_lt_total (key x) (key y))
  insert_by_comm x y (z ∷ zs) h = ground (
    arith,
    insert_by_comm x y zs,
    text_lt_asymm (key x) (key y),
    text_lt_total (key x) (key y),
    text_lt_trans (key z) (key x) (key y),
    text_lt_trans (key z) (key y) (key x),
  )

  -- The sort of lists that are the same up to order, with no two keys alike.
  pub sort_by_key-perm :
      {xs ys : List A}
      → Permᴰ xs ys
      → Pairwise (λ a b. key a ≢ key b) xs
      → sort_by_key xs ≡ sort_by_key ys
  unfolding sort_by_key
  sort_by_key-perm Permᴰ.nil d = refl
  sort_by_key-perm (Permᴰ.cons e p) (Pairwise.cons h d) = cc (e, sort_by_key-perm p d)
  sort_by_key-perm (Permᴰ.swap {a} {b} {l} e f) (Pairwise.cons h d) =
      cc (e, f, insert_by_comm a b (sort_by_key l) (h b mem-cons_self))
  sort_by_key-perm (Permᴰ.trans p q) d =
      sort_by_key-perm p d
      ∙ sort_by_key-perm q (Perm.pairwise (λ a b. ¬_prop) (λ a b n e. n (sym e)) ∣ p ∣₁ d)

  insert_by-All : (P : A → Type 0) (x : A) (xs : List A) → P x → All P xs → All P (insert_by x xs)
  unfolding insert_by
  insert_by-All P x [] p h = (p, tt)
  insert_by-All P x (y ∷ ys) p (q, h) = elim (Bool-cases (text_lt (key y) (key x))) [
    | inl below ↦ rw (below) (q, insert_by-All P x ys p h)
    | inr above ↦ rw (above) (p, (q, h))
  ]

  -- What holds of all holds of all of the sorted list.
  pub sort_by_key-All : (P : A → Type 0) (xs : List A) → All P xs → All P (sort_by_key xs)
  unfolding sort_by_key
  sort_by_key-All P [] h = tt
  sort_by_key-All P (x ∷ xs) (p, h) = insert_by-All P x (sort_by_key xs) p (sort_by_key-All P xs h)
