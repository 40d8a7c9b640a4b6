-- ===== src/Values/Storable.antt =====
-- Which responses can be made into tables.
use proveno_gateway.Prelude.{
  ℕ, suc, pos, Text, Result, ok, err, ◌>>=◌, map_err, >>=-eq-ok, ◌≡◌, ◌↔◌, refl, subst, sym, ap,
  arith,
}
use proveno_gateway.Json.{
  Json, null, boolean, number, string, array, object, Items, nil, item, Members, end, member, Serde,
}
use proveno_gateway.Core.{Core, LuaKey, string_key, integer_key}
use proveno_gateway.Values.{to_lua, array_from, object_from, json_to_table, put}

-- No array in the value, however deep, has a null element; a null member of an object is fine.
abbrev mutual
  pub Storable : Json → Type 0
  Storable null = Unit
  Storable (boolean b) = Unit
  Storable (number n) = Unit
  Storable (string s) = Unit
  Storable (array vs) = StorableItems vs
  Storable (object ms) = StorableMembers ms

  pub StorableItems : Items → Type 0
  StorableItems nil = Unit
  StorableItems (item null vs) = ⊥
  StorableItems (item v vs) = Storable v × StorableItems vs

  pub StorableMembers : Members → Type 0
  StorableMembers end = Unit
  StorableMembers (member k v ms) = Storable v × StorableMembers ms

module _ (core : Core) (serde : Serde) where
  -- The table takes every value under every key.
  abbrev pub Takes : Type 0
  Takes =
      (t : core.Table) (k : LuaKey) (v : core.LuaValue)
      → (t' : core.Table) × (core.rawset t k v ≡ ok t')

  put-ok :
      Takes
      → (t : core.Table) (k : LuaKey) (v : core.LuaValue)
      → (t' : core.Table) × (put core serde t k v ≡ ok t')
  put-ok takes t k v = let (t', e) = takes t k v in (t', ap (map_err _) e)

  -- a chain that ends well for every value that the first step gives
  chain-ok :
      {A B : Type 0} (first : Result A Text) (next : A → Result B Text)
      → (a : A) × (first ≡ ok a)
      → ((a : A) → (b : B) × (next a ≡ ok b))
      → (b : B) × ((first >>= next) ≡ ok b)
  chain-ok (ok x) next there later = later x
  chain-ok (err e) next (a, h) later = absurd (ground arith)

  set-ok :
      Takes
      → {B : Type 0} (v : Json) (t : core.Table) (k : LuaKey) (next : core.Table → Result B Text)
      → (x : core.LuaValue) × (to_lua core serde v ≡ ok x)
      → ((t' : core.Table) → (b : B) × (next t' ≡ ok b))
      → (b : B) × ((to_lua core serde v >>= (λ x. put core serde t k x >>= next)) ≡ ok b)
  set-ok takes v t k next there later =
      chain-ok (to_lua core serde v) (λ x. put core serde t k x >>= next) there
        (λ x. chain-ok (put core serde t k x) next (put-ok takes t k x) later)

  mutual
    unfolding to_lua

    to_lua-ok : Takes → (v : Json) → Storable v → (x : core.LuaValue) × (to_lua core serde v ≡ ok x)
    to_lua-ok takes null s = (_, refl)
    to_lua-ok takes (boolean b) s = (_, refl)
    to_lua-ok takes (number n) s = (_, refl)
    to_lua-ok takes (string t) s = (_, refl)
    to_lua-ok takes (array vs) s =
        chain-ok (array_from core serde vs 1 core.new_table) _
          (array_from-ok takes vs 1 core.new_table s) (λ t. (_, refl))
    to_lua-ok takes (object ms) s =
        chain-ok (object_from core serde ms core.new_table) _
          (object_from-ok takes ms core.new_table s) (λ t. (_, refl))

    array_from-ok :
        Takes
        → (vs : Items) (i : ℕ) (t : core.Table) → StorableItems vs
        → (t' : core.Table) × (array_from core serde vs i t ≡ ok t')
    array_from-ok takes nil i t s = (t, refl)
    array_from-ok takes (item null vs) i t s = absurd s
    array_from-ok takes (item (boolean b) vs) i t (s, ss) =
        set-ok takes (boolean b) t _ _ (to_lua-ok takes (boolean b) s)
          (λ t'. array_from-ok takes vs (suc i) t' ss)
    array_from-ok takes (item (number n) vs) i t (s, ss) =
        set-ok takes (number n) t _ _ (to_lua-ok takes (number n) s)
          (λ t'. array_from-ok takes vs (suc i) t' ss)
    array_from-ok takes (item (string x) vs) i t (s, ss) =
        set-ok takes (string x) t _ _ (to_lua-ok takes (string x) s)
          (λ t'. array_from-ok takes vs (suc i) t' ss)
    array_from-ok takes (item (array xs) vs) i t (s, ss) =
        set-ok takes (array xs) t _ _ (to_lua-ok takes (array xs) s)
          (λ t'. array_from-ok takes vs (suc i) t' ss)
    array_from-ok takes (item (object ms) vs) i t (s, ss) =
        set-ok takes (object ms) t _ _ (to_lua-ok takes (object ms) s)
          (λ t'. array_from-ok takes vs (suc i) t' ss)

    object_from-ok :
        Takes
        → (ms : Members) (t : core.Table) → StorableMembers ms
        → (t' : core.Table) × (object_from core serde ms t ≡ ok t')
    object_from-ok takes end t s = (t, refl)
    object_from-ok takes (member k null ms) t (s, ss) = object_from-ok takes ms t ss
    object_from-ok takes (member k (boolean b) ms) t (s, ss) =
        set-ok takes (boolean b) t _ _ (to_lua-ok takes (boolean b) s)
          (λ t'. object_from-ok takes ms t' ss)
    object_from-ok takes (member k (number n) ms) t (s, ss) =
        set-ok takes (number n) t _ _ (to_lua-ok takes (number n) s)
          (λ t'. object_from-ok takes ms t' ss)
    object_from-ok takes (member k (string x) ms) t (s, ss) =
        set-ok takes (string x) t _ _ (to_lua-ok takes (string x) s)
          (λ t'. object_from-ok takes ms t' ss)
    object_from-ok takes (member k (array xs) ms) t (s, ss) =
        set-ok takes (array xs) t _ _ (to_lua-ok takes (array xs) s)
          (λ t'. object_from-ok takes ms t' ss)
    object_from-ok takes (member k (object xs) ms) t (s, ss) =
        set-ok takes (object xs) t _ _ (to_lua-ok takes (object xs) s)
          (λ t'. object_from-ok takes ms t' ss)

  members_of : (ms ns : Members) → object ms ≡ object ns → ms ≡ ns
  members_of ms ns e = cc

  -- What a step that ended well went through.
  set-eq-ok :
      {B : Type 0} (v : Json) (t : core.Table) (k : LuaKey) (next : core.Table → Result B Text)
      (last : B)
      → (to_lua core serde v >>= (λ x. put core serde t k x >>= next)) ≡ ok last
      → (x : core.LuaValue) × (t' : core.Table) × (to_lua core serde v ≡ ok x) × (next t' ≡ ok last)
  set-eq-ok v t k next last h =
      let (x, e, h1) = >>=-eq-ok (to_lua core serde v) (λ x. put core serde t k x >>= next) h in
      let (t', f, h2) = >>=-eq-ok (put core serde t k x) next h1 in (x, t', e, h2)

  mutual
    unfolding to_lua

    to_lua-Storable : (v : Json) (x : core.LuaValue) → to_lua core serde v ≡ ok x → Storable v
    to_lua-Storable null x h = tt
    to_lua-Storable (boolean b) x h = tt
    to_lua-Storable (number n) x h = tt
    to_lua-Storable (string t) x h = tt
    to_lua-Storable (array vs) x h =
        let (t, e, f) = >>=-eq-ok (array_from core serde vs 1 core.new_table) _ h in
        array_from-Storable vs 1 core.new_table t e
    to_lua-Storable (object ms) x h =
        let (t, e, f) = >>=-eq-ok (object_from core serde ms core.new_table) _ h in
        object_from-Storable ms core.new_table t e

    array_from-Storable :
        (vs : Items) (i : ℕ) (t last : core.Table)
        → array_from core serde vs i t ≡ ok last
        → StorableItems vs
    array_from-Storable nil i t last h = tt
    array_from-Storable (item null vs) i t last h = absurd (ground arith)
    array_from-Storable (item (boolean b) vs) i t last h =
        let (y, t', e, f) =
          set-eq-ok (boolean b) t (integer_key (pos i)) (λ t'. array_from core serde vs (suc i) t')
            last h in
        (to_lua-Storable (boolean b) y e, array_from-Storable vs (suc i) t' last f)
    array_from-Storable (item (number n) vs) i t last h =
        let (y, t', e, f) =
          set-eq-ok (number n) t (integer_key (pos i)) (λ t'. array_from core serde vs (suc i) t')
            last h in
        (to_lua-Storable (number n) y e, array_from-Storable vs (suc i) t' last f)
    array_from-Storable (item (string x) vs) i t last h =
        let (y, t', e, f) =
          set-eq-ok (string x) t (integer_key (pos i)) (λ t'. array_from core serde vs (suc i) t')
            last h in
        (to_lua-Storable (string x) y e, array_from-Storable vs (suc i) t' last f)
    array_from-Storable (item (array xs) vs) i t last h =
        let (y, t', e, f) =
          set-eq-ok (array xs) t (integer_key (pos i)) (λ t'. array_from core serde vs (suc i) t')
            last h in
        (to_lua-Storable (array xs) y e, array_from-Storable vs (suc i) t' last f)
    array_from-Storable (item (object ms) vs) i t last h =
        let (y, t', e, f) =
          set-eq-ok (object ms) t (integer_key (pos i)) (λ t'. array_from core serde vs (suc i) t')
            last h in
        (to_lua-Storable (object ms) y e, array_from-Storable vs (suc i) t' last f)

    object_from-Storable :
        (ms : Members) (t last : core.Table)
        → object_from core serde ms t ≡ ok last
        → StorableMembers ms
    object_from-Storable end t last h = tt
    object_from-Storable (member k null ms) t last h = (tt, object_from-Storable ms t last h)
    object_from-Storable (member k (boolean b) ms) t last h =
        let (y, t', e, f) =
          set-eq-ok (boolean b) t (string_key k) (λ t'. object_from core serde ms t') last h in
        (to_lua-Storable (boolean b) y e, object_from-Storable ms t' last f)
    object_from-Storable (member k (number n) ms) t last h =
        let (y, t', e, f) =
          set-eq-ok (number n) t (string_key k) (λ t'. object_from core serde ms t') last h in
        (to_lua-Storable (number n) y e, object_from-Storable ms t' last f)
    object_from-Storable (member k (string x) ms) t last h =
        let (y, t', e, f) =
          set-eq-ok (string x) t (string_key k) (λ t'. object_from core serde ms t') last h in
        (to_lua-Storable (string x) y e, object_from-Storable ms t' last f)
    object_from-Storable (member k (array xs) ms) t last h =
        let (y, t', e, f) =
          set-eq-ok (array xs) t (string_key k) (λ t'. object_from core serde ms t') last h in
        (to_lua-Storable (array xs) y e, object_from-Storable ms t' last f)
    object_from-Storable (member k (object os) ms) t last h =
        let (y, t', e, f) =
          set-eq-ok (object os) t (string_key k) (λ t'. object_from core serde ms t') last h in
        (to_lua-Storable (object os) y e, object_from-Storable ms t' last f)

  -- A response is made into a table exactly if it is an object with no null element in any of its
  -- arrays, however deep, if tables take every value under every key.
  pub json_to_table_iff :
      (takes : Takes) (v : Json)
      → ((t : core.Table) × (json_to_table core serde v ≡ ok t))
        ↔ ((ms : Members) × (v ≡ object ms) × StorableMembers ms)
  unfolding json_to_table
  json_to_table_iff takes (object ms) = (
    λ (t, h). (ms, refl, object_from-Storable ms core.new_table t h),
    λ (ms', e, s).
        object_from-ok takes ms core.new_table
          (subst StorableMembers (sym (members_of ms ms' e)) s),
  )
  json_to_table_iff takes _ = (λ (t, h). absurd (ground arith), λ (ms, e, s). absurd (cc))
