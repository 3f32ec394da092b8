-- ===== src/RuntimeB/Configured.antt =====
-- runtime-b/handler.go, NewConfiguredHandler, and runtime-b/nested.go, newNestedService: a handler
-- from a configuration, and the server that starts with it.
use ne_kiro_samples.Base.{
  ◌≡◌, ap, sym, Option, some, List, [], Outcome, ok, err, panic, plain, wrapped, or_fail, ◌>>=◌,
  ◌>>◌, bind_then,
}
use ne_kiro_samples.Base.Dict.{lookup}
use ne_kiro_samples.Platform.{Library, Invoker}
use ne_kiro_samples.RuntimeB.Config.{Config, Environment, validate}
use ne_kiro_samples.RuntimeB.Clone.Laws.{CopiesAreStable}
use ne_kiro_samples.RuntimeB.Nested.{NestedService}
use ne_kiro_samples.RuntimeB.Handler.{Handler}
use ne_kiro_samples.RuntimeB.Handler.Sound.{IsSound}
use ne_kiro_samples.RuntimeB.System.{Operation, run, idle}
use ne_kiro_samples.RuntimeB.System.Invariant.{IsConsistent, idle-IsConsistent}
use ne_kiro_samples.RuntimeB.System.Reachable.{run-IsConsistent}

-- A nil invoker is `none`.
unfoldable pub new_nested_service : Environment → Config → Option Invoker → Outcome NestedService
new_nested_service env config invoker = do
  validate env config
  given ← or_fail invoker (plain "runtime-b nested invoker is required")
  ok (record { config = config; invoker = given })

-- agentsdk.NewClient on the settings, with the HTTP client that it is given.
abbrev pub NewClient : Type 0
NewClient = Config → Outcome Invoker

abbrev client_created : Outcome Invoker → Outcome Invoker
client_created (ok sdk) = ok sdk
client_created (err e) = err (wrapped "runtime-b create Agent SDK client: " e)
client_created (panic m) = panic m

unfoldable pub new_configured_handler : Environment → NewClient → Config → Outcome Handler
unfolding new_nested_service
new_configured_handler env new_client config = do
  validate env config
  sdk ← client_created (new_client config)
  nested ← new_nested_service env config (some sdk)
  ok (record {
    objects = [];
    tasks = [];
    cancellations = [];
    agent_id = config.agent_id;
    instance_id = config.instance_id;
    nested = some nested;
  })

-- A handler with no tasks is well formed.
empty-IsSound : (lib : Library) (h : Handler) → h.objects ≡ [] → h.tasks ≡ [] → IsSound lib h
unfolding lookup
empty-IsSound lib h objects tasks = record {
  sound_tasks = rw objects tt;
  named = λ id. rw tasks tt;
}

-- If NewConfiguredHandler returns a handler, Validate accepts the configuration, the handler calls
-- the Router with it, and a server that starts with the handler is consistent after any requests in
-- any order, if JSON copies are stable.
pub configured_server-IsConsistent :
    (lib : Library) (env : Environment) (new_client : NewClient) (config : Config) (h : Handler)
    (os : List Operation)
    → CopiesAreStable lib
    → new_configured_handler env new_client config ≡ ok h
    → (validate env config ≡ ok tt)
      × ((service : NestedService) × (h.nested ≡ some service) × (service.config ≡ config))
      × IsConsistent lib (run lib (idle h) os)
unfolding new_configured_handler
configured_server-IsConsistent lib env new_client config h os stable e =
    bind_then (validate env config) _ e λ _ valid e.
      bind_then (client_created (new_client config)) _ e λ sdk created e.
        bind_then (new_nested_service env config (some sdk)) _ e λ service made e.
          let same = same_handler _ h e in
          (
            valid,
            (service, ap (λ x. x.nested) (sym same), service_config env config sdk service made),
            run-IsConsistent lib (idle h) os stable (
                idle-IsConsistent lib h (
                  empty-IsSound lib h (ap (λ x. x.objects) (sym same))
                    (ap (λ x. x.tasks) (sym same)))),
          )
  where
    same_handler : (a b : Handler) → ◌≡◌ {A = Outcome Handler} (ok a) (ok b) → a ≡ b
    same_handler a b q = cc

    same_service : (a b : NestedService) → ◌≡◌ {A = Outcome NestedService} (ok a) (ok b) → a ≡ b
    same_service a b q = cc

    service_config :
        (env : Environment) (config : Config) (sdk : Invoker) (service : NestedService)
        → new_nested_service env config (some sdk) ≡ ok service
        → service.config ≡ config
    service_config env config sdk service made =
        bind_then (validate env config) _ made
          λ _ valid e. ap (λ s. s.config) (sym (same_service _ service e))
