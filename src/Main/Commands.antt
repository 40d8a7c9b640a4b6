-- ===== src/Main/Commands.antt =====
-- src/main.rs: the commands, from the arguments to the exit.
use proveno_gateway.Prelude.{
  List, ℕ, Text, codes, Option, ◌++◌, Result, ok, err, ◌>>=◌, map_err, [],
}
use proveno_gateway.Trace.{Crypto}
use proveno_gateway.Policy.{PolicyFile}
use proveno_gateway.Policy
use proveno_gateway.Downstream.Connect.{Connector}
use proveno_gateway.Config.{GatewayConfig, ConfigError, TomlReader, load}
use proveno_gateway.Store.{Codec, Faults, Fs}
use proveno_gateway.Host.{Libraries}
use proveno_gateway.Engine.{Tools, Engine, check}
use proveno_gateway.Server.Start.{Bound, NotStarted, Router, Ended, serve}
use proveno_gateway.Engine.Start.{StartError, new}
use proveno_gateway.Replay.{ReplayError, replay}
use proveno_gateway.Main.{success, Exit, exits, replay_command, run, check_command}

pub data Command : Type 0 where
  serve_command : (config : Text) → Command
  check_file : (config principal file : Text) → Command
  replay_trace : (config trace_id : Text) → Command

-- What the commands take of the system and of the crates that print.
pub record Os : Type 0 where
  pub runtime : Result (Unit {0}) Text
  pub read_to_string : Text → Result Text Text
  pub parent : Text → Option Text
  pub var : Text → Option Text
  pub create_dirs : Text → Result (Unit {0}) Text
  pub bind : Text → Result Bound Text
  pub not_started_text : NotStarted → Text
  pub config_text : ConfigError → Text
  pub start_text : StartError → Text
  pub replay_text : ReplayError → Text

pub unread_program : Text → Text → Text
unread_program file e = file ++ codes ": " ++ e

module _ {W : Type 0} (libs : Libraries W) (crypto : Crypto) (codec : Codec) (tools : Tools)
    (os : Os) (toml : TomlReader) (policy_toml : Text → Result PolicyFile Text)
    (connector : Connector W libs.rmcp.Client) (sha256 : Text → List ℕ)
    (during : Router libs.rmcp.Client crypto.SigningKey → W → Ended × W) where
  abbrev pub loaded : Text → Result GatewayConfig Text
  loaded config = map_err os.config_text (load toml os.read_to_string os.parent config)

  abbrev pub started :
      GatewayConfig → W → Result (Engine libs.rmcp.Client crypto.SigningKey) StartError × W
  started config w =
      new libs crypto codec tools connector os.var
        (Policy.load os.read_to_string policy_toml config.policy.file)
        (os.create_dirs config.store.dir) config w

  -- `serve`
  unfoldable pub serve_loaded : Result GatewayConfig Text → W → Result Exit Text × W
  serve_loaded (err e) w = (err e, w)
  serve_loaded (ok config) w =
      let (served, w') =
        serve libs crypto codec tools sha256 connector os.var
          (Policy.load os.read_to_string policy_toml config.policy.file)
          (os.create_dirs config.store.dir) os.bind during os.not_started_text config w in
      (served >>= (λ u. ok (exits success [] [])), w')

  -- `check`, once the file is read
  unfoldable pub check_loaded : Text → Text → Result GatewayConfig Text → W → Result Exit Text × W
  check_loaded principal program (err e) w = (err e, w)
  check_loaded principal program (ok config) w =
      let (engine, w') = started config w in
      (
        map_err os.start_text engine >>= λ e.
            ok (check_command (check libs crypto codec tools e principal program)),
        w',
      )

  unfoldable pub check_program : (config principal file : Text) → W → Result Exit Text × W
  unfolding check_loaded
  check_program config principal file w =
      elim (map_err (unread_program file) (os.read_to_string file)) [
        | err e ↦ (err e, w)
        | ok program ↦ check_loaded principal program (loaded config) w
      ]

  -- the command runs once there is a runtime
  abbrev on_runtime : Result (Unit {0}) Text → Result Exit Text × W → W → Exit × W
  on_runtime (err e) done w = (run (err e), w)
  on_runtime (ok u) (result, w') w = (run result, w')

  -- The two `Faults` are what the system refuses the reads of a replay.
  unfoldable pub main : Command → Faults → Faults → Fs → W → Exit × W
  unfolding serve_loaded check_program run
  main (serve_command config) f g fs w = on_runtime os.runtime (serve_loaded (loaded config) w) w
  main (check_file config principal file) f g fs w =
      on_runtime os.runtime (check_program config principal file w) w
  main (replay_trace config trace_id) f g fs w = (
    replay_command (
        loaded config >>= λ c. map_err os.replay_text (
          replay libs.core crypto codec tools os.var (os.create_dirs c.store.dir) c trace_id f g
            fs)),
    w,
  )
