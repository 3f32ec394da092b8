-- ===== src/RuntimeA/Nested/Headers.antt =====
-- The platform context of a request: its headers, each of them once.
use ne_kiro_samples.Base.{
  String, ◌≡◌, ◌≢◌, ◌↔◌, refl, ap, Option, none, some, List, [], ◌∷◌, Outcome, ok, err, panic,
  bind_then, or_fail-eq-ok, ◌>>=◌, arith, eq_iff, text_ne, subst, or_fail, invalid_params,
}
use Prim.Native.String.{◌++◌}
use ne_kiro_samples.Platform.{PlatformContext, Library, RequestMeta}
use ne_kiro_samples.RuntimeA.Nested.{
  NestedService, one_value, required_header, platform_context, valid_context,
}

-- The context is this agent's, and its other fields are the only values of their headers.
pub record FromHeaders (lib : Library) (service : NestedService) (meta : RequestMeta)
    (c : PlatformContext) : Type 0 where
  pub trace : meta service.profile.trace_id ≡ some (c.trace_id ∷ [])
  pub trace_given : c.trace_id ≢ ""
  pub invocation : meta service.profile.invocation_id ≡ some (c.invocation_id ∷ [])
  pub invocation_given : c.invocation_id ≢ ""
  pub root_task : meta service.profile.root_task_id ≡ some (c.root_task_id ∷ [])
  pub root_task_given : c.root_task_id ≢ ""
  pub workspace : meta service.profile.workspace_id ≡ some (c.workspace_id ∷ [])
  pub workspace_given : c.workspace_id ≢ ""
  pub this_agent : c.agent_id ≡ service.config.agent_id
  pub valid : lib.validate_context c ≡ none

one_value-eq-some :
    (o : Option (List String)) {v : String} → one_value o ≡ some v → (o ≡ some (v ∷ [])) × (v ≢ "")
one_value-eq-some none e = cc
one_value-eq-some (some []) e = cc
one_value-eq-some (some (v ∷ w ∷ vs)) e = cc
one_value-eq-some (some (v ∷ [])) e = ground (arith, eq_iff v "")

one_value_given :
    (o : Option (List String)) {v : String} → o ≡ some (v ∷ []) → v ≢ "" → one_value o ≡ some v
one_value_given o e given = rw e (rw (text_ne given) refl)

required_header-eq-ok :
    (meta : RequestMeta) (name : String) {v : String}
    → required_header meta name ≡ ok v
    → (meta name ≡ some (v ∷ [])) × (v ≢ "")
unfolding required_header
required_header-eq-ok meta name e =
    one_value-eq-some (meta name) (or_fail-eq-ok (one_value (meta name)) _ e)

required_header_given :
    (meta : RequestMeta) (name : String) {v : String}
    → meta name ≡ some (v ∷ [])
    → v ≢ ""
    → required_header meta name ≡ ok v
unfolding required_header
required_header_given meta name e given =
    ap (λ o. or_fail o (invalid_params (name ++ " header is required exactly once")))
      (one_value_given (meta name) e given)

valid_context-eq-ok :
    (lib : Library) (c : PlatformContext)
    → valid_context lib c ≡ ok tt
    → lib.validate_context c ≡ none
valid_context-eq-ok lib c e = ground arith

same_context :
    (lib : Library) (test : Outcome (Unit {0})) (made c : PlatformContext)
    → test >>= (λ _. ok made) ≡ ok c
    → (test ≡ ok tt) × (made ≡ c)
same_context lib (ok tt) made c e = (refl, cc)
same_context lib (err x) made c e = cc
same_context lib (panic m) made c e = cc

module _ (lib : Library) (service : NestedService) (meta : RequestMeta) where
  platform_context_sound :
      (c : PlatformContext)
      → platform_context lib service (some meta) ≡ ok c
      → FromHeaders lib service meta c
  unfolding platform_context
  platform_context_sound c e =
      bind_then (required_header meta service.profile.trace_id) _ e λ trace t e.
        bind_then (required_header meta service.profile.invocation_id) _ e λ invocation i e.
          bind_then (required_header meta service.profile.root_task_id) _ e λ root r e.
            bind_then (required_header meta service.profile.workspace_id) _ e λ workspace w e.
              let made : PlatformContext = record {
                invocation_id = invocation;
                root_task_id = root;
                trace_id = trace;
                workspace_id = workspace;
                agent_id = service.config.agent_id;
              } in
              let (valid, same) = same_context lib (valid_context lib made) made c e in
              let (has_trace, trace_given) =
                required_header-eq-ok meta service.profile.trace_id t in
              let (has_invocation, invocation_given) =
                required_header-eq-ok meta service.profile.invocation_id i in
              let (has_root, root_given) =
                required_header-eq-ok meta service.profile.root_task_id r in
              let (has_workspace, workspace_given) =
                required_header-eq-ok meta service.profile.workspace_id w in
              subst (FromHeaders lib service meta) same (record {
                trace = has_trace;
                trace_given = trace_given;
                invocation = has_invocation;
                invocation_given = invocation_given;
                root_task = has_root;
                root_task_given = root_given;
                workspace = has_workspace;
                workspace_given = workspace_given;
                this_agent = refl;
                valid = valid_context-eq-ok lib made valid;
              })

  platform_context_complete :
      (c : PlatformContext)
      → FromHeaders lib service meta c
      → platform_context lib service (some meta) ≡ ok c
  unfolding platform_context
  platform_context_complete c d =
      rw
        (
          required_header_given meta service.profile.trace_id d.trace d.trace_given,
          required_header_given meta service.profile.invocation_id d.invocation d.invocation_given,
          required_header_given meta service.profile.root_task_id d.root_task d.root_task_given,
          required_header_given meta service.profile.workspace_id d.workspace d.workspace_given,
        )
        (rw (← d.this_agent) (rw (d.valid, valid_context) refl))

  -- A platform context comes from the request's metadata exactly when each of the four context headers
  -- has one value, not empty, the agent is the configured one, and Validate accepts the context.
  pub platform_context_iff :
      (c : PlatformContext)
      → (platform_context lib service (some meta) ≡ ok c) ↔ FromHeaders lib service meta c
  platform_context_iff c = (platform_context_sound c, platform_context_complete c)
