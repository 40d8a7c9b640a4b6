-- ===== src/Description/Canonical.antt =====
-- The description does not depend on the order in which the tools are given, and its prelude ends in
-- a line end.
use mathlib.Core.List.{Pairwise, Permᴰ, append-nil}
use proveno_gateway.Prelude.{
  ℕ, Text, codes, ends_with_char, true, List, [], ◌∷◌, ◌++◌, map, concat, ◌≡◌, ◌≢◌, refl, ◌⊎◌, inl,
  inr, All,
}
use proveno_gateway.Prelude.Sort.{sort_by_key, sort_by_key-perm}
use proveno_gateway.Downstream.{ToolSchema, qualified_name}
use proveno_gateway.Dialect.{prelude_source}
use proveno_gateway.Description.{build, prelude, prelude_lines, server_line, tool_line}

-- Two lists of tools with the same tools in any order give the same description, prelude and hash,
-- if no two of the tools have one qualified name.
pub build-perm :
    (digest : Text → List ℕ) (xs ys : List ToolSchema)
    → Permᴰ xs ys
    → Pairwise (λ a b. qualified_name a ≢ qualified_name b) xs
    → build digest xs ≡ build digest ys
unfolding build
build-perm digest xs ys p d = rw (sort_by_key-perm qualified_name p d)

ends-append : (c : ℕ) (a b : Text) → ends_with_char c b ≡ true → ends_with_char c (a ++ b) ≡ true
unfolding ends_with_char
ends-append c [] b h = h
ends-append c (x ∷ []) [] h = cc
ends-append c (x ∷ []) (y ∷ b) h = h
ends-append c (x ∷ y ∷ a) b h = ends-append c (y ∷ a) b h

-- A text is empty or ends in a line end.
abbrev Ended : Text → Type 0
Ended s = (s ≡ []) ⊎ (ends_with_char b'\n' s ≡ true)

Ended-append : (a b : Text) → ends_with_char b'\n' a ≡ true → Ended b → Ended (a ++ b)
Ended-append a b h (inl e) = inr (rw (e, append-nil) h)
Ended-append a b h (inr e) = inr (ends-append b'\n' a b e)

Ended-concat : (ls : List Text) → All (λ l. ends_with_char b'\n' l ≡ true) ls → Ended (concat ls)
unfolding concat
Ended-concat [] h = inl refl
Ended-concat (l ∷ ls) (h, hs) = Ended-append l (concat ls) h (Ended-concat ls hs)

All-append : (P : Text → Type 0) (xs ys : List Text) → All P xs → All P ys → All P (xs ++ ys)
All-append P [] ys hx hy = hy
All-append P (x ∷ xs) ys (h, hx) hy = (h, All-append P xs ys hx hy)

All-map :
    {A : Type 0} (P : Text → Type 0) (f : A → Text)
    → ((a : A) → P (f a))
    → (xs : List A) → All P (map f xs)
All-map P f h [] = tt
All-map P f h (x ∷ xs) = (h x, All-map P f h xs)

server_line-Ended : (s : Text) → ends_with_char b'\n' (server_line s) ≡ true
unfolding server_line ends_with_char codes
server_line-Ended s = ends-append b'\n' (codes "local " ++ s) (codes " = {}\n") refl

tool_line-Ended : (t : ToolSchema) → ends_with_char b'\n' (tool_line t) ≡ true
unfolding tool_line ends_with_char codes
tool_line-Ended t =
    ends-append b'\n'
      (qualified_name t ++ codes " = function(args) return tool.call(\"" ++ qualified_name t)
      (codes "\", args) end\n") refl

-- The prelude of any tools is empty or ends in a line end.
prelude-Ended : (ts : List ToolSchema) → Ended (prelude ts)
unfolding prelude prelude_lines
prelude-Ended ts = Ended-concat (prelude_lines ts) (
    All-append (λ l. ends_with_char b'\n' l ≡ true) _ (map tool_line ts)
      (All-map _ server_line server_line-Ended _) (All-map _ tool_line tool_line-Ended ts))

prelude_source-Ended : (s : Text) → Ended s → prelude_source s ≡ s
unfolding prelude_source
prelude_source-Ended [] h = refl
prelude_source-Ended (c ∷ s) (inl e) = cc
prelude_source-Ended (c ∷ s) (inr e) = rw (e) refl

-- Compiling puts nothing between a generated prelude and the program behind it.
pub prelude_source-build :
    (digest : Text → List ℕ) (ts : List ToolSchema)
    → prelude_source (build digest ts).prelude ≡ (build digest ts).prelude
unfolding build
prelude_source-build digest ts =
    prelude_source-Ended (prelude (sort_by_key qualified_name ts))
      (prelude-Ended (sort_by_key qualified_name ts))

pub build-hash :
    (digest : Text → List ℕ) (ts : List ToolSchema)
    → (build digest ts).hash ≡ digest (build digest ts).text
unfolding build
build-hash digest ts = refl
