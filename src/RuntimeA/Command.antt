-- ===== src/RuntimeA/Command.antt =====
-- runtime-a/cmd/runtime-a/main.go: the start of the command, up to the host.
pub mod Prepared
pub mod Guards
use ne_kiro_samples.Base.{String, Option, none, some, Outcome, ok, err, ◌>>=◌}
use ne_kiro_samples.Settings.{Lookup, Environment}
use ne_kiro_samples.Platform.{Library, Invoker, Profile}
use ne_kiro_samples.Web.{HttpHandler, Web}
use ne_kiro_samples.ChallengeProof
use ne_kiro_samples.ChallengeProof.Start.{Files, new_handler as new_challenge_handler, application}
use ne_kiro_samples.Command.{
  in_config, in_registration, in_handler, HostConfig, Host, at_stage, new_runtime_registration,
  shutdown_timeout_of, hosted,
}
use ne_kiro_samples.RuntimeA.Config.{Config, load_config}
use ne_kiro_samples.RuntimeA.Engine.{Framework}
use ne_kiro_samples.RuntimeA.Handler.{Handler, new_handler}
use ne_kiro_samples.RuntimeA.Server.{new_http_handler_with_readiness}

-- The packages that the command uses.
pub record Packages : Type 0 where
  pub env : Environment
  pub lib : Library
  pub framework : Framework
  pub profile : Outcome Profile
  pub new_client : Config → Outcome Invoker
  pub web : Web
  pub new_json_rpc : Handler → HttpHandler
  pub files : Files
  pub proofs : ChallengeProof.Library
  pub host : Host

-- runWithLookup up to agenthost.New.
unfoldable pub prepare : Packages → Lookup → Outcome HostConfig
prepare given lookup = do
  config ←
      at_stage given.host in_config "load Runtime A configuration" (load_config given.env lookup)
  registration_config ←
      at_stage given.host in_config "load Runtime A registration configuration"
        (given.host.load_registration lookup "RUNTIME_A" config.agent_id config.instance_id)
  registration ←
      at_stage given.host in_registration "create Runtime A registration"
        (new_runtime_registration given.host registration_config)
  handler ←
      at_stage given.host in_handler "create Runtime A handler"
        (new_handler given.env given.lib given.framework given.profile given.new_client config)
  served ←
      new_http_handler_with_readiness given.web given.new_json_rpc (some handler)
        (some registration.1)
  guarded ←
      at_stage given.host in_handler "configure Runtime A endpoint challenge"
        (new_challenge_handler given.files (some served) (some lookup))
  ok (record {
    address = config.listen_address;
    application = application given.proofs guarded;
    registration = registration.0;
    shutdown_timeout = shutdown_timeout_of registration_config;
  })

unfoldable pub run_with_lookup : Packages → Lookup → Outcome (Unit {0})
unfolding prepare
run_with_lookup given lookup = hosted given.host (prepare given lookup)
