-- ===== src/RuntimeB/Tests/Owners.antt =====
-- The owner of a test credential.
use ne_kiro_samples.Base.{refl}
use ne_kiro_samples.Platform.{Claims}
use ne_kiro_samples.RuntimeB.Identity.Owners.{NulFree, IsScoped, SameCaller, task_owner_injective}
use ne_kiro_samples.RuntimeB.Examples.{test_claims}

abbrev short_claims : Claims
short_claims = record test_claims { agent_id = "a" }

short_claims-IsScoped : IsScoped short_claims
unfolding NulFree
short_claims-IsScoped = record {
  workspace = (λ e. cc, tt);
  agent = (λ e. cc, tt);
  version = (λ e. cc, tt);
  release = (λ e. cc, tt);
  digest = (λ e. cc, tt);
  capability = (λ e. cc, tt);
}

task_owner_injective_example : SameCaller short_claims short_claims
task_owner_injective_example =
    task_owner_injective short_claims short_claims short_claims-IsScoped short_claims-IsScoped refl
