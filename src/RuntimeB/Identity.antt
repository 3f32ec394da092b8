-- ===== src/RuntimeB/Identity.antt =====
-- runtime-b/identity.go, and the identity texts of handler.go that scope tasks and observations.
pub mod Owners
use ne_kiro_samples.Base.{String, Option, none, some, ◌==◌, if◌then◌else◌}
use Prim.Native.String.{◌++◌}
use ne_kiro_samples.Platform.{Claims, Library}

-- "\x00" in the source.
abbrev pub separator : String
separator = "\0"

unfoldable pub derived_id : Library → (domain message_id : String) → String
derived_id lib domain message_id =
    "runtime-b-" ++ (domain ++ ("-" ++ lib.sha256_hex (domain ++ (separator ++ message_id))))

-- `contextID := input.ContextID; if contextID == "" { … }`, which four functions share.
unfoldable pub context_or_derived : Library → (context_id message_id : String) → String
context_or_derived lib context_id message_id =
    if context_id == "" then derived_id lib "context" message_id else context_id

abbrev owner_text : Claims → String
owner_text c =
    c.workspace_id
    ++ (separator
        ++ (c.agent_id
            ++ (separator
                ++ (c.agent_version
                    ++ (separator
                        ++ (c.release_id
                            ++ (separator ++ (c.card_digest ++ (separator ++ c.capability)))))))))

-- The claims are those that ClaimsFromContext finds in the request's context.
unfoldable pub observation_owner : Option Claims → String
observation_owner none = ""
observation_owner (some c) = owner_text c

abbrev claims_invocation : Option Claims → String
claims_invocation none = ""
claims_invocation (some c) = c.invocation_id

unfoldable pub task_owner : Option Claims → String
unfolding observation_owner
task_owner claims =
    let owner = observation_owner claims in
    if owner == "" then "" else owner ++ (separator ++ claims_invocation claims)

unfoldable pub cancellation_observation_key : Option Claims → String → String
unfolding observation_owner
cancellation_observation_key claims marker =
    let owner = observation_owner claims in
    if owner == "" then marker else owner ++ (separator ++ marker)
