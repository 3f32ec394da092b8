-- ===== src/RuntimeA/Tests/Answers.antt =====
-- An answered nested call of the test server.
use ne_kiro_samples.Base.{String, ◌≡◌, refl, ap, some, [], ◌∷◌, ok}
use ne_kiro_samples.A2a.{sent_message}
use ne_kiro_samples.Settings.Examples.{test_environment}
use ne_kiro_samples.RuntimeA.Nested.Headers.{FromHeaders, platform_context_iff}
use ne_kiro_samples.RuntimeA.Engine.Reference.{seen, first_error, all_contents}
use ne_kiro_samples.RuntimeA.Handler.{on_send_message}
use ne_kiro_samples.RuntimeA.Handler.Echo.{request, params_of, agent_message}
use ne_kiro_samples.RuntimeA.Handler.Answers.{Completes, on_send_message_answers}
use ne_kiro_samples.RuntimeA.Handler.Lineage.{Child}
use ne_kiro_samples.RuntimeA.Handler.Combined.{raw_fields}
use ne_kiro_samples.RuntimeA.Examples.{
  test_library, test_library-inputs, test_library-objects, test_framework, completed, delivered,
  test_claims, test_meta, test_profile, test_message, test_config, test_result, test_invoker,
  test_service, test_handler,
}
use ne_kiro_samples.RuntimeA.Tests.{test_context, found, test_message-Accepts, handler_made}

test_framework-Completes : Completes test_framework
unfolding seen first_error all_contents
test_framework-Completes name agent context user_id session text content answers =
    let (author, r, ran, one) = answers "i0" in
    (
      some (test_framework.response_event "i0" author r) ∷ some completed ∷ [],
      ap delivered ran,
      refl,
      rw one refl,
    )

test_headers : FromHeaders test_library test_service test_meta test_context
test_headers = (platform_context_iff test_library test_service test_meta test_context).0 found

test_call : Child test_library test_service test_context "input" "combined"
test_call = record {
  result = test_result;
  called = refl;
  new_child = λ e. cc;
  combines = record {
    named = λ e. cc;
    rooted = λ e. cc;
    traced = λ e. cc;
    succeeded = refl;
    child_result = "1";
    returned = refl;
    written = refl;
  };
}

on_send_message_answers_example :
    (agent_text id_text result_text child_result : String) × (on_send_message test_library
        test_framework test_handler
        (request test_claims (some test_meta))
        (params_of test_message)
      ≡ ok (
          sent_message
            (agent_message "runtime-a-result-m1" "" (raw_fields agent_text id_text result_text))))
    × (test_library.unmarshal_string agent_text ≡ some "runtime-a")
    × (test_library.unmarshal_string id_text ≡ some test_call.result.invocation_id)
    × (test_call.result.result ≡ some child_result)
    × (test_library.unmarshal result_text ≡ test_library.unmarshal child_result)
on_send_message_answers_example =
    on_send_message_answers test_environment test_library test_framework (ok test_profile)
      test_config (some test_invoker) test_handler test_claims test_meta test_message test_context
      "input" "combined" test_library-inputs test_library-objects test_framework-Completes
      handler_made refl (λ e. cc) test_headers test_message-Accepts test_call
