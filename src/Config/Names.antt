-- ===== src/Config/Names.antt =====
-- What a configuration that loads promises of the downstream names.
use proveno_gateway.Prelude.{
  Text, has_char, false, List, [], ◌∷◌, ok, >>=-eq-ok, map_err, map_err-eq-ok, ◌≡◌, arith,
}
use proveno_gateway.Prelude.Map.{contains}
use proveno_gateway.Store.{join_path}
use proveno_gateway.Config.{
  invalid, downstream_try_from, GatewayConfig, DownstreamConfig, TomlReader, check_names, parse,
  secret_try_from,
}

-- No name has a dot, and none is that of an earlier entry.
abbrev pub GoodNames : List Text → List DownstreamConfig → Type 0
GoodNames seen [] = Unit
GoodNames seen (d ∷ ds) =
    (has_char b'.' d.name ≡ false) × (contains d.name seen ≡ false) × GoodNames (d.name ∷ seen) ds

check_names_sound :
    (seen : List Text) (ds : List DownstreamConfig)
    → check_names seen ds ≡ ok tt
    → GoodNames seen ds
unfolding check_names
check_names_sound seen [] h = tt
check_names_sound seen (d ∷ ds) h = ground (arith, check_names_sound (d.name ∷ seen) ds)

-- A configuration that parses is read from the text, has downstream names with no dot, each used
-- once, and its policy file and store directory are those that were read, taken from the directory
-- of the configuration.
pub parse-GoodNames :
    (toml : TomlReader) (text base : Text) (config : GatewayConfig)
    → parse toml text base ≡ ok config
    → GoodNames [] config.downstream
      × ((raw : GatewayConfig) × (toml.from_str downstream_try_from secret_try_from text ≡ ok raw)
          × (config.downstream ≡ raw.downstream)
          × (config.policy.file ≡ join_path base raw.policy.file)
          × (config.store.dir ≡ join_path base raw.store.dir))
unfolding parse
parse-GoodNames toml text base config h =
    let (raw, e, rest) =
      >>=-eq-ok (map_err invalid (toml.from_str downstream_try_from secret_try_from text)) _ h in
    let (u, names, done) = >>=-eq-ok (check_names [] raw.downstream) _ rest in
    let names' = check_names_sound [] raw.downstream names in
    (ground arith, (raw, map_err-eq-ok invalid _ e, ground arith, ground arith, ground arith))
