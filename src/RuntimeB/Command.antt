-- ===== src/RuntimeB/Command.antt =====
-- runtime-b/cmd/runtime-b/main.go: the start of the command, up to the host.
pub mod Prepared
pub mod Guards
use ne_kiro_samples.Base.{String, Option, none, some, Outcome, ok, err, ◌>>=◌}
use ne_kiro_samples.Settings.{Lookup, Environment}
use ne_kiro_samples.Platform.{RouterAuth}
use ne_kiro_samples.Web.{HttpHandler, Web}
use ne_kiro_samples.ChallengeProof
use ne_kiro_samples.ChallengeProof.Start.{Files, new_handler as new_challenge_handler, application}
use ne_kiro_samples.Command.{
  in_config, in_registration, in_handler, HostConfig, Host, at_stage, new_runtime_registration,
  shutdown_timeout_of, hosted,
}
use ne_kiro_samples.RuntimeB.Config.{load_config}
use ne_kiro_samples.RuntimeB.Handler.{Handler}
use ne_kiro_samples.RuntimeB.Configured.{NewClient, new_configured_handler}
use ne_kiro_samples.RuntimeB.Server.{
  listen_address_from_environment, new_http_handler_with_auth_and_readiness,
}

-- The packages that the command uses.
pub record Packages : Type 0 where
  pub env : Environment
  pub new_client : NewClient
  pub web : Web
  pub new_json_rpc : Handler → HttpHandler
  pub files : Files
  pub proofs : ChallengeProof.Library
  pub host : Host

-- runWithLookup up to agenthost.New.
unfoldable pub prepare : Packages → Lookup → Outcome HostConfig
prepare given lookup = do
  address ←
      at_stage given.host in_config "load Runtime B listen address"
        (listen_address_from_environment given.env lookup)
  authentication ←
      at_stage given.host in_config "load Runtime B authentication configuration"
        (given.env.load_router_auth lookup)
  config ←
      at_stage given.host in_config "load Runtime B configuration" (load_config given.env lookup)
  registration_config ←
      at_stage given.host in_config "load Runtime B registration configuration"
        (given.host.load_registration lookup "RUNTIME_B" config.agent_id config.instance_id)
  registration ←
      at_stage given.host in_registration "create Runtime B registration"
        (new_runtime_registration given.host registration_config)
  handler ←
      at_stage given.host in_handler "create Runtime B handler"
        (new_configured_handler given.env given.new_client config)
  served ← at_stage given.host in_handler "configure Runtime B authentication" (
      new_http_handler_with_auth_and_readiness given.web given.new_json_rpc (some handler)
        authentication (some registration.1))
  guarded ←
      at_stage given.host in_handler "configure Runtime B endpoint challenge"
        (new_challenge_handler given.files (some served) (some lookup))
  ok (record {
    address = address;
    application = application given.proofs guarded;
    registration = registration.0;
    shutdown_timeout = shutdown_timeout_of registration_config;
  })

unfoldable pub run_with_lookup : Packages → Lookup → Outcome (Unit {0})
unfolding prepare
run_with_lookup given lookup = hosted given.host (prepare given lookup)
