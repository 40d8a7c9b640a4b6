-- ===== src/Examples/Commands.antt =====
-- The commands, and the policy file.
use proveno_gateway.Prelude.{Text, ℕ, pos, codes, strip_suffix, ◌==◌, none, [], ◌∷◌, ok, ◌≡◌, refl}
use proveno_gateway.Prelude.Map.{lookup, insert, key_set}
use proveno_gateway.Policy.{
  Policy, PolicyFile, parse, parse_constraints, parse_bounds, bound_arg, allow_sets,
}
use proveno_gateway.Policy.Parsed.{Says, parse-Says}
use proveno_gateway.Config.{TomlReader}
use proveno_gateway.Main.Commands.{Os}
use proveno_gateway.Config
use proveno_gateway.Config.{GatewayConfig}
use proveno_gateway.Store.{join_path}
use proveno_gateway.Policy
use proveno_gateway.Server.Start.{Router, Ended, interrupted}
use proveno_gateway.Examples.World.{alice, read_name}
use proveno_gateway.Examples.Requests.{config, env}

abbrev file : PolicyFile
file = record {
  principals = (alice, record { allow = codes "bank.pay" ∷ [] }) ∷ [];
  constraints = (codes "bank.pay", (codes "amount_max", pos 100) ∷ []) ∷ [];
}

abbrev policy : Policy
policy = record {
  principals = (alice, codes "bank.pay" ∷ []) ∷ [];
  constraints = (codes "bank.pay", (codes "amount", pos 100) ∷ []) ∷ [];
}

parsed : parse (λ text. ok file) [] ≡ ok policy
unfolding parse codes parse_constraints parse_bounds bound_arg strip_suffix ◌==◌ allow_sets insert
    key_set
parsed = refl

parse-Says_example : Says file policy
unfolding lookup
parse-Says_example =
    parse-Says (λ text. ok file) [] file policy refl (refl, tt) ((refl, tt), tt) parsed

abbrev toml : TomlReader
toml = record { from_str = λ downstream secret text. ok config }

abbrev os : Os
os = record {
  runtime = ok tt;
  read_to_string = λ path. ok (codes "return 1");
  parent = λ path. none;
  var = env;
  create_dirs = λ dir. ok tt;
  bind = λ listen. ok (ok tt);
  not_started_text = λ e. codes "server";
  config_text = λ e. codes "config";
  start_text = λ e. codes "start";
  replay_text = λ e. codes "replay";
}

abbrev over : Router Unit Text → ℕ → Ended × ℕ
over router w = (interrupted (ok tt), w)

abbrev settings : GatewayConfig
settings = record config {
  policy = record { file = join_path [] (codes "p") };
  store = record { dir = codes "/s" };
}

-- the file of the policy of this world
abbrev read_file : PolicyFile
read_file = record {
  principals = (alice, record { allow = read_name ∷ [] }) ∷ [];
  constraints = [];
}
