-- ===== src/RuntimeA/Nested/Refusals.antt =====
-- The errors of a request that is refused before any call: its headers and its message.
use ne_kiro_samples.Base.{
  String, not, ◌≡◌, subst, ◌==◌, ◌&&◌, nat_eq, Option, none, some, List, [], ◌∷◌, Outcome, ok, err,
  Error, plain, invalid_params, err_inj, bind_fails, guard_fails, or_fail_fails, or_fail-eq-err,
}
use ne_kiro_samples.Base.Dict.{lookup}
use ne_kiro_samples.A2a.{
  Part, data_part, text_part, file_part, other_part, Message, field_count, get_field,
}
use ne_kiro_samples.Platform.{Library, PlatformContext, RequestMeta}
use ne_kiro_samples.RuntimeA.Nested.{
  NestedService, one_value, required_header, valid_context, platform_context, is_user, one_part,
  data_of, is_success, input_fields, root_input, root_input_value, decoded_fields, two_fields,
}

pub data Refusal : Error → Type 0 where
  refused : (text : String) → Refusal (invalid_params text)
  unencoded : Refusal (plain "runtime-a encode nested input")
  no_responder_input : Refusal (plain "runtime-a responder input is invalid")
  no_responder_value : Refusal (plain "runtime-a responder value is missing")

pub refused_as : {text : String} {e : Error} → invalid_params text ≡ e → Refusal e
refused_as {text} same = subst Refusal same (refused text)

module _ (lib : Library) where
  required_header-Refusal :
      (meta : RequestMeta) (name : String) {e : Error}
      → required_header meta name ≡ err e
      → Refusal e
  unfolding required_header
  required_header-Refusal meta name failed =
      refused_as (or_fail-eq-err (one_value (meta name)) _ failed)

  valid_context-Refusal :
      (context : PlatformContext) {e : Error} → valid_context lib context ≡ err e → Refusal e
  valid_context-Refusal context failed = go (lib.validate_context context) failed
    where
      go :
          (o : Option String) {e : Error}
          → (elim o as (λ k. Outcome (Unit {0})) [
            | none ↦ ok tt
            | some text ↦ err (invalid_params text)
          ])
            ≡ err e
          → Refusal e
      go none failed = cc
      go (some text) failed = refused_as (err_inj failed)

  pub platform_context-Refusal :
      (service : NestedService) (meta : Option RequestMeta) {e : Error}
      → platform_context lib service meta ≡ err e
      → Refusal e
  unfolding platform_context
  platform_context-Refusal service none failed = refused_as (err_inj failed)
  platform_context-Refusal service (some meta) failed =
      bind_fails (required_header meta service.profile.trace_id) _ failed
        (required_header-Refusal meta _)
        λ trace_id found failed.
          bind_fails (required_header meta service.profile.invocation_id) _ failed
            (required_header-Refusal meta _)
            λ invocation_id found failed.
              bind_fails (required_header meta service.profile.root_task_id) _ failed
                (required_header-Refusal meta _)
                λ root_task_id found failed.
                  bind_fails (required_header meta service.profile.workspace_id) _ failed
                    (required_header-Refusal meta _)
                    λ workspace_id found failed.
                      bind_fails (valid_context lib _) _ failed (valid_context-Refusal _)
                        λ valid checked failed. cc

  one_part-Refusal : (parts : List Part) {e : Error} → one_part parts ≡ err e → Refusal e
  one_part-Refusal [] failed = refused_as (err_inj failed)
  one_part-Refusal (part ∷ []) failed = cc
  one_part-Refusal (part ∷ other ∷ parts) failed = refused_as (err_inj failed)

  data_of-Refusal : (part : Part) {e : Error} → data_of part ≡ err e → Refusal e
  data_of-Refusal (data_part c m) failed = cc
  data_of-Refusal (text_part t m) failed = refused_as (err_inj failed)
  data_of-Refusal (file_part c m) failed = refused_as (err_inj failed)
  data_of-Refusal (other_part n) failed = refused_as (err_inj failed)

  pub root_input-Refusal :
      (given : Option Message) {e : Error} → root_input lib given ≡ err e → Refusal e
  unfolding root_input
  root_input-Refusal given failed =
      or_fail_fails given _ _ failed (λ missing. refused_as)
        λ message found failed.
          guard_fails (not (message.id == "")) _ _ failed (λ missing. refused_as)
            λ named failed.
              guard_fails (is_user message.role) _ _ failed (λ missing. refused_as)
                λ from_user failed.
                  bind_fails (one_part message.parts) _ failed (one_part-Refusal message.parts)
                    λ part one failed.
                      bind_fails (data_of part) _ failed (data_of-Refusal part)
                        λ content data_content failed.
                          guard_fails (nat_eq (field_count content) 2) _ _ failed
                            (λ missing. refused_as)
                            λ two failed.
                              guard_fails (is_success (get_field "fixture" content)) _ _ failed
                                (λ missing. refused_as)
                                λ fixture failed.
                                  or_fail_fails (get_field "value" content) _ _ failed
                                    (λ missing. refused_as)
                                    λ value held failed.
                                      or_fail_fails (lib.marshal value) _ _ failed
                                        (λ missing. refused_as)
                                        λ encoded marshalled failed.
                                          subst Refusal
                                            (or_fail-eq-err
                                              (lib.marshal_fields (input_fields encoded)) _ failed)
                                            unencoded

  pub root_input_value-Refusal :
      (given : Option Message) {e : Error} → root_input_value lib given ≡ err e → Refusal e
  unfolding root_input_value
  root_input_value-Refusal given failed =
      bind_fails (root_input lib given) _ failed (root_input-Refusal given) λ input made failed.
        or_fail_fails (decoded_fields (lib.unmarshal_fields input)) _ _ failed
          (λ missing same. subst Refusal same no_responder_input)
          λ fields found failed.
            guard_fails (two_fields fields) _ _ failed
              (λ missing same. subst Refusal same no_responder_input)
              λ two failed.
                or_fail_fails (lookup "value" fields) _ _ failed
                  (λ missing same. subst Refusal same no_responder_value)
                  λ value held failed.
                    guard_fails (not (value == "") && lib.valid_json value) _ _ failed
                      (λ missing same. subst Refusal same no_responder_value) λ valid failed. cc
