-- ===== src/Downstream/Owned.antt =====
-- What connecting leaves: every tool can be called.
use proveno_gateway.Prelude.{
  Text, codes, eq_refl, has_char, true, false, Bool-cases, Option, is_some, List, [], ◌∷◌, ◌++◌,
  All, ok, map_err, Result-cases, ◌>>=◌, >>=-eq-ok, ok-inj, Path, subst, sym, ◌≡◌, inl, inr, arith,
}
use proveno_gateway.Prelude.Map.{lookup, insert, lookup-insert}
use proveno_gateway.Prelude.Sort.{sort_by_key, sort_by_key-All}
use proveno_gateway.Config.{DownstreamConfig}
use proveno_gateway.Downstream.{
  ToolSchema, Tool, Downstreams, qualified_name, dot, tool_schema, push_tools,
}
use proveno_gateway.Downstream.Connect.{Connector, connect, connect_all, open_client, connect_error}

-- The tool's own name has no dot, and its server has a client.
abbrev pub Owned {ℓ} : {Client : Type ℓ} → List (Text × Client) → ToolSchema → Type 0
Owned clients t = (has_char dot t.name ≡ false) × (is_some (lookup t.server clients) ≡ true)

All-snoc :
    (P : ToolSchema → Type 0) (xs : List ToolSchema) (x : ToolSchema)
    → All P xs
    → P x
    → All P (xs ++ x ∷ [])
All-snoc P [] x h p = (p, tt)
All-snoc P (y ∷ xs) x (q, h) p = (q, All-snoc P xs x h p)

tool_schema-ok :
    (server : Text) (tool : Tool) (t : ToolSchema)
    → tool_schema server tool ≡ ok t
    → (has_char dot t.name ≡ false) × (t.server ≡ server)
unfolding tool_schema
tool_schema-ok server tool t h = elim (Bool-cases (has_char dot tool.name)) [
  | inl dotted ↦ absurd (ground arith)
  | inr plain ↦ (ground arith, ground arith)
]

module _ {Client : Type 0} (clients : List (Text × Client)) where
  push_tools-Owned :
      (server : Text) (tools : List ToolSchema) (listed : List Tool) (all : List ToolSchema)
      → is_some (lookup server clients) ≡ true
      → All (Owned clients) tools
      → push_tools server tools listed ≡ ok all
      → All (Owned clients) all
  unfolding push_tools
  push_tools-Owned server tools [] all there owned h = subst (All (Owned clients)) (ok-inj h) owned
  push_tools-Owned server tools (t ∷ listed) all there owned h =
      let (s, e, rest) = >>=-eq-ok (tool_schema server t) _ h in
      let (plain, same) = tool_schema-ok server t s e in
      push_tools-Owned server (tools ++ s ∷ []) listed all there
        (All-snoc (Owned clients) tools s owned
          (plain, subst (λ (n : Text). is_some (lookup n clients) ≡ true) (sym same) there))
        rest

  Owned-insert :
      (name : Text) (client : Client) (tools : List ToolSchema)
      → All (Owned clients) tools
      → All (Owned (insert name client clients)) tools
  Owned-insert name client [] h = tt
  Owned-insert name client (t ∷ tools) ((plain, there), h) = (
    (plain, ground (arith, lookup-insert name t.server client clients)),
    Owned-insert name client tools h,
  )

module _ {W Client : Type 0} (c : Connector W Client) (var : Text → Option Text) where
  connect_all-Owned :
      (d last : Downstreams Client) (configs : List DownstreamConfig) (w : W)
      → All (Owned d.clients) d.tools
      → (connect_all c var d configs w).0 ≡ ok last
      → All (Owned last.clients) last.tools
  unfolding connect_all
  connect_all-Owned d last [] w owned h =
      subst (λ (x : Downstreams Client). All (Owned x.clients) x.tools) (ok-inj {E = Text} h) owned
  connect_all-Owned d last (config ∷ configs) w owned h =
      let opened = open_client c var config w in
      elim (Result-cases opened.0) [
        | inr (e, failed) ↦ absurd (ground arith)
        | inl (client, e) ↦
            let listed = c.list_all_tools client opened.1 in
            elim (Result-cases (
              map_err (connect_error config.name (codes "tools/list")) listed.0
              >>= push_tools config.name d.tools)) [
                | inr (x, failed) ↦ absurd (ground arith)
                | inl (tools, f) ↦
                    let (ts, g, pushed) =
                      >>=-eq-ok (map_err (connect_error config.name (codes "tools/list")) listed.0)
                        _ f in
                    connect_all-Owned
                      (record { clients = insert config.name client d.clients; tools = tools }) last
                      configs listed.1
                      (push_tools-Owned (insert config.name client d.clients) config.name d.tools ts
                        tools
                        (ground (
                          arith,
                          lookup-insert config.name config.name client d.clients,
                          eq_refl config.name,
                        ))
                        (Owned-insert d.clients config.name client d.tools owned) pushed)
                      (ground arith)
              ]
      ]

  -- After connecting, no tool has a dot in its own name, and every tool's server has a client.
  pub connect-Owned :
      (configs : List DownstreamConfig) (w : W) (d : Downstreams Client)
      → (connect c var configs w).0 ≡ ok d
      → All (Owned d.clients) d.tools
  unfolding connect
  connect-Owned configs w d h =
      let all = connect_all c var (record { clients = []; tools = [] }) configs w in
      elim (Result-cases all.0) [
        | inr (e, failed) ↦ absurd (ground arith)
        | inl (x, e) ↦
            let same : Path (Downstreams Client)
                (record x { tools = sort_by_key qualified_name x.tools }) d =
              ok-inj {E = Text} (ground arith) in
            subst (λ (y : Downstreams Client). All (Owned y.clients) y.tools) same
              (sort_by_key-All qualified_name (Owned x.clients) x.tools
                (connect_all-Owned (record { clients = []; tools = [] }) x configs w tt e))
      ]
