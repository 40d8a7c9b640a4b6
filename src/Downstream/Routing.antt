-- ===== src/Downstream/Routing.antt =====
-- Which client a call reaches, and with what.
use proveno_gateway.Prelude.{
  ◌==◌, eq_refl, has_char, split_once-append, true, false, ◌&&◌, Option, some, List, [], ◌∷◌, any,
  ok, ◌>>=◌, map_err, ◌≡◌, ◌⊎◌, inl, inr, arith,
}
use proveno_gateway.Prelude.Map.{lookup}
use proveno_gateway.Json.{Json, Members, Serde}
use proveno_gateway.Downstream.{
  ToolSchema, Downstreams, Rmcp, ProvenanceSerde, qualified_name, dot, call, call_split,
  arguments_of, call_failed, read_response,
}

-- One of the tools.
abbrev pub Listed : ToolSchema → List ToolSchema → Type 0
Listed t [] = ⊥
Listed t (u ∷ us) = (u ≡ t) ⊎ Listed t us

Listed-is_known :
    (t : ToolSchema) (us : List ToolSchema)
    → Listed t us
    → any (λ u. u.server == t.server && u.name == t.name) us ≡ true
Listed-is_known t [] l = absurd l
Listed-is_known t (u ∷ us) (inl e) = rw (e) (ground (arith, eq_refl t.server, eq_refl t.name))
Listed-is_known t (u ∷ us) (inr l) = ground (arith, Listed-is_known t us l)

module _ {W : Type 0} (serde : Serde) (ps : ProvenanceSerde) (rmcp : Rmcp W) where
  -- The qualified name of a listed tool, whose server has no dot in its name and a client, reaches
  -- that client under the tool's own name; whatever the tool's name, it is not split further.
  pub call-qualified_name :
      (d : Downstreams rmcp.Client) (t : ToolSchema) (client : rmcp.Client) (args : Json)
      (sent : Option Members) (w : W)
      → has_char dot t.server ≡ false
      → Listed t d.tools
      → lookup t.server d.clients ≡ some client
      → arguments_of (qualified_name t) args ≡ ok sent
      → call serde ps rmcp d (qualified_name t) args w ≡ (
        map_err (call_failed (qualified_name t)) (rmcp.call_tool client t.name sent w).0
            >>= read_response serde ps rmcp (qualified_name t) t.server,
        (rmcp.call_tool client t.name sent w).1,
      )
  unfolding call call_split qualified_name
  call-qualified_name d t client args sent w plain listed found object =
      ground (arith, split_once-append dot t.server t.name plain, Listed-is_known t d.tools listed)
