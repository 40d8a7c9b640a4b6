-- ===== src/Examples/Served.antt =====
-- A request over HTTP to a server that started.
use proveno_gateway.Prelude.{[], arith, ℕ, Text, codes, Option, none, some, ok, ◌≡◌, ◌⊎◌, refl, ◌∷◌}
use proveno_gateway.Downstream.{CallToolResult}
use proveno_gateway.Config
use proveno_gateway.Prelude.Map.{lookup, insert}
use proveno_gateway.Store.{Fs}
use proveno_gateway.Host.Permits.{Permits}
use proveno_gateway.Engine.{run_settings}
use proveno_gateway.Server.{Reply, passed_on, unauthorized}
use proveno_gateway.Server.Tokens.{resolve}
use proveno_gateway.Server.Start.{Router, start, handle}
use proveno_gateway.Server.Requests.{Presented, handle-Permits}
use proveno_gateway.Examples.World.{
  core-RecordsCalls, crypto, libs, tools, engine, alice, moment, empty_fs, policy,
}
use proveno_gateway.Examples.Runs.{no_codec}
use proveno_gateway.Examples.Requests.{config, connector, env, started}
use proveno_gateway.Examples.Clients.{server}
use proveno_gateway.Examples.Parts.{sha, sha-Digests}

abbrev router : Router Unit Text
router = record { tokens = (alice, sha (codes "5e")) ∷ []; engine = engine }

resolved : resolve env sha config.principals ≡ ok router.tokens
unfolding resolve Config.resolve codes lookup insert
resolved = refl

up :
    (start libs crypto no_codec tools sha connector env
      (ok policy)
      (ok tt)
      (λ listen. ok (ok tt))
      config
      0).0
    ≡ ok router
unfolding start
up = ground (arith, started, resolved)

abbrev header : Option Text
header = some (codes "Bearer 5e")

handle-Permits_example :
    (handle libs crypto no_codec tools sha server router header
        (codes "check")
        none
        moment
        empty_fs
        4
      ≡ unauthorized)
    ⊎ (who : Text) × (r : Reply CallToolResult) × (fs' : Fs) × (w' : ℕ) × (handle libs crypto
          no_codec tools sha server router header
          (codes "check")
          none
          moment
          empty_fs
          4
        ≡ passed_on (r, fs', w'))
      × Presented sha env config header who
      × Permits libs (run_settings libs crypto no_codec tools engine who) 4 w'
handle-Permits_example =
    handle-Permits libs crypto no_codec tools sha sha-Digests core-RecordsCalls server connector env
      (ok policy) (ok tt) (λ listen. ok (ok tt)) config 0 router header (codes "check") none moment
      empty_fs 4 up
