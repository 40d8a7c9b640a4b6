-- ===== src/Examples/Files.antt =====
-- The theorems on what is read: reports of provenance and the configuration.
use proveno_gateway.Prelude.{
  split_once, concat, split_whitespace, All, codes, ◌==◌, has_char, none, some, [], ok, ℕ, List,
  ◌↔◌, ◌≡◌, ◌⊎◌, refl,
}
use proveno_gateway.Prelude.Map.{insert, lookup, contains}
use proveno_gateway.Json
use proveno_gateway.Json.{Json, Members, object}
use proveno_gateway.Trace.{Provenance, unsigned, signed}
use proveno_gateway.Downstream.{
  ProvenanceSerde, provenance_meta_key, read_provenance, reported_of, typed_fields, unknown_fields,
  blank_field,
}
use proveno_gateway.Downstream.Reports.{Taken, read_provenance-Taken}
use proveno_gateway.Config.{GatewayConfig, TomlReader, parse, downstream_try_from, secret_try_from}
use proveno_gateway.Config.Names.{GoodNames, parse-GoodNames}
use proveno_gateway.Store.{join_path}
use proveno_gateway.Prelude.Sort.{sort_by_key}
use proveno_gateway.Downstream.{qualified_name}
use proveno_gateway.Downstream.Connect.{connect}
use proveno_gateway.Downstream.Owned.{Owned, connect-Owned}
use proveno_gateway.Values.{json_to_table}
use proveno_gateway.Values.Storable.{StorableMembers, json_to_table_iff}
use proveno_gateway.Downstream
use proveno_gateway.Downstream.{ToolResponse}
use proveno_gateway.Downstream.Shapes.{WellFormed, call-WellFormed}
use proveno_gateway.Examples.World.{downstreams, core, serde, provenance_serde, rmcp}
use proveno_gateway.Examples.Requests.{config, connector, env}

abbrev bank : Provenance
bank = signed (codes "bank") (codes "5e")

abbrev reader : ProvenanceSerde
reader = record {
  number_of = λ n. record { as_i64 = none; as_u64 = some n; text = [] };
  read = λ v. ok bank;
  write = λ fields. codes "blob";
}

-- {"type": "signed", "by": "bank"}, of which the type defines one more field
abbrev meta : Members
meta =
    Json.member provenance_meta_key
      (object (
        Json.member (codes "by") (Json.string (codes "bank"))
          (Json.member (codes "type") (Json.string (codes "signed")) Json.end)))
      Json.end

read : read_provenance reader (some meta) ≡ ok (bank, codes "blob")
unfolding read_provenance lookup codes ◌==◌ typed_fields unknown_fields blank_field
read = refl

read_provenance-Taken_example :
    ((reported_of reader (some meta) ≡ none) × (bank ≡ unsigned) × (codes "blob" ≡ []))
    ⊎ Taken reader (some meta) bank (codes "blob")
read_provenance-Taken_example = read_provenance-Taken reader (some meta) bank (codes "blob") read

abbrev toml : TomlReader
toml = record { from_str = λ downstream secret text. ok config }

abbrev resolved : GatewayConfig
resolved = record config {
  policy = record { file = join_path (codes "/etc") (codes "p") };
  store = record { dir = join_path (codes "/etc") (codes "/s") };
}

parsed : parse toml [] (codes "/etc") ≡ ok resolved
unfolding parse has_char codes contains
parsed = refl

parse-GoodNames_example :
    GoodNames [] resolved.downstream
    × ((raw : GatewayConfig) × (toml.from_str downstream_try_from secret_try_from [] ≡ ok raw)
        × (resolved.downstream ≡ raw.downstream)
        × (resolved.policy.file ≡ join_path (codes "/etc") raw.policy.file)
        × (resolved.store.dir ≡ join_path (codes "/etc") raw.store.dir))
parse-GoodNames_example = parse-GoodNames toml [] (codes "/etc") resolved parsed

connected : (connect connector env config.downstream 0).0 ≡ ok downstreams
unfolding connect split_whitespace codes has_char sort_by_key qualified_name insert
connected = refl

connect-Owned_example : All (Owned downstreams.clients) downstreams.tools
connect-Owned_example = connect-Owned connector env config.downstream 0 downstreams connected

-- {"a": [null]}
abbrev hollow : Members
hollow = Json.member (codes "a") (Json.array (Json.item Json.null Json.nil)) Json.end

json_to_table_iff_example :
    ((t : List ℕ) × (json_to_table core serde (object hollow) ≡ ok t))
    ↔ ((ms : Members) × (object hollow ≡ object ms) × StorableMembers ms)
json_to_table_iff_example = json_to_table_iff core serde (λ t k v. (v, refl)) (object hollow)

-- what the world's server says
abbrev said : ToolResponse
said = record {
  value = object (Json.member (codes "text") (Json.string (codes "hi")) Json.end);
  provenance = unsigned;
  attestation = [];
}

answered :
    Downstream.call serde provenance_serde rmcp downstreams (codes "files.read") (object Json.end) 0
    ≡ (ok said, 1)
unfolding Downstream.call split_once codes lookup ◌==◌ concat
answered = refl

call-WellFormed_example : WellFormed said
call-WellFormed_example =
    call-WellFormed serde provenance_serde rmcp downstreams (codes "files.read") (object Json.end) 0
      1 said answered
