-- ===== src/Main/Replays.antt =====
-- src/main.rs: what the command `replay` comes to, for the traces that the gateway leaves.
use proveno_gateway.Prelude.{List, [], ℕ, Text, Option, ok, Result, ◌≡◌}
use proveno_gateway.Trace.{Crypto, signing_key_from_hex}
use proveno_gateway.Policy
use proveno_gateway.Policy.{Policy, PolicyFile}
use proveno_gateway.Downstream.Connect.{Connector}
use proveno_gateway.Config.{GatewayConfig, TomlReader, resolve}
use proveno_gateway.Store.{Codec, Faults, Fs, open_store}
use proveno_gateway.Host.{Libraries}
use proveno_gateway.Engine.{Tools, Engine, ExecuteRequest, ExecuteResponse, Moment, parsed}
use proveno_gateway.Engine.Status.{status_kind}
use proveno_gateway.Replay.{ReplayReport}
use proveno_gateway.Server.Start.{Router, Ended}
use proveno_gateway.Main.{exits, success, report_lines}
use proveno_gateway.Main.Commands.{Os, main, replay_trace}

module _ {W : Type 0} (libs : Libraries W) (crypto : Crypto) (codec : Codec) (tools : Tools) where
  open libs use {core, rmcp}

  -- What an engine has of the configuration that it was started with.
  record From (var : Text → Option Text) (create_dirs : Result (Unit {0}) Text)
      (config : GatewayConfig) (engine : Engine rmcp.Client crypto.SigningKey) : Type 0 where
    hex : Text
    resolved : resolve var config.server.signing_key ≡ ok hex
    key : signing_key_from_hex crypto hex ≡ ok engine.signing_key
    made : create_dirs ≡ ok tt
    opened : engine.store ≡ open_store config.store.dir

  module _ (os : Os) (toml : TomlReader) (policy_toml : Text → Result PolicyFile Text)
      (connector : Connector W rmcp.Client) (sha256 : Text → List ℕ)
      (during : Router rmcp.Client crypto.SigningKey → W → Ended × W)
      (engine : Engine rmcp.Client crypto.SigningKey) (principal : Text) (req : ExecuteRequest)
      (moment : Moment) (resp : ExecuteResponse) where
    -- The command ends with success, prints the report, and reports what was answered.
    pub record ReplayedBy (config : Text) (g1 g2 : Faults) (fs : Fs) (w : W) : Type 0 where
      pub report : ReplayReport
      pub printed :
          main libs crypto codec tools os toml policy_toml connector sha256 during
            (replay_trace config resp.trace_id)
            g1
            g2
            fs
            w
          ≡ (exits success (report_lines report) [], w)
      pub result : resp.result ≡ parsed libs crypto codec tools report.output
      pub kind : status_kind resp.status ≡ status_kind report.status
