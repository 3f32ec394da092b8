-- ===== src/RuntimeB/Tests/Tables.antt =====
-- A task's calls on a new server, and on the empty table.
use ne_kiro_samples.Base.{String, ◌≡◌, refl, none, some, List, [], ◌∷◌, ok, err, task_not_found}
use ne_kiro_samples.Base.Dict.{lookup}
use ne_kiro_samples.A2a.{canceled}
use ne_kiro_samples.RuntimeB.Identity.{derived_id, task_owner}
use ne_kiro_samples.RuntimeB.Fixture.{clone_json_value}
use ne_kiro_samples.RuntimeB.Clone.{clone_message}
use ne_kiro_samples.RuntimeB.Handler.{find_task, new_handler, observation_of}
use ne_kiro_samples.RuntimeB.Examples.{
  test_library, test_library-stable, test_claims, hold_message, hold_request, new_handler-IsSound,
}
use ne_kiro_samples.RuntimeB.Registry.{
  Call, creates, cancels, completes, removes, nothing, state, Table, perform_all, specify,
  specify_all,
}
use ne_kiro_samples.RuntimeB.Registry.Shows.{Implements}
use ne_kiro_samples.RuntimeB.Registry.Refines.{AllAgree, perform_all-refines}

abbrev empty_table : Table
empty_table = record { tasks = λ id. none; counts = λ key. 0 }

new_handler-Implements : Implements test_library new_handler empty_table
unfolding find_task lookup
new_handler-Implements = record {
  sound = new_handler-IsSound;
  tasks = λ id. refl;
  counts = λ key. refl;
}

abbrev made : String
made = derived_id test_library "task" "m1"

abbrev calls : List Call
calls =
    creates (some test_claims) hold_message hold_request
    ∷ cancels (some test_claims) "other"
    ∷ cancels (some test_claims) made
    ∷ completes made
    ∷ removes made
    ∷ []

perform_all-refines_example :
    AllAgree test_library
      (perform_all test_library new_handler calls)
      (specify_all test_library empty_table calls)
perform_all-refines_example =
    perform_all-refines test_library new_handler empty_table calls test_library-stable
      new_handler-Implements

prescribed :
    (specify_all test_library empty_table calls).1
    ≡ ok nothing ∷ err task_not_found ∷ ok (state canceled) ∷ ok (state canceled) ∷ ok nothing ∷ []
unfolding specify_all specify clone_message clone_json_value derived_id task_owner observation_of
prescribed = refl
