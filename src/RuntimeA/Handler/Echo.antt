-- ===== src/RuntimeA/Handler/Echo.antt =====
-- The capability runtime.echo answers by itself.
use ne_kiro_samples.Base.{
  String, true, ◌≡◌, refl, sym, ap, ◌∙◌, ◌↔◌, ◌==◌, Option, none, some, [], ◌∷◌, Outcome, ok,
  bind_then, eq_iff,
}
use Prim.Native.String.{◌++◌}
use ne_kiro_samples.A2a.{
  str, raw, Fields, field, end, data_part, agent, Message, SendResult, sent_message,
}
use ne_kiro_samples.Platform.{Library, Claims, RequestMeta}
use ne_kiro_samples.RuntimeA.Nested.{root_input, root_input_value, responder_message}
use ne_kiro_samples.RuntimeA.Nested.Input.{
  Accepts, InputsDecode, root_input_iff, root_input_value_roundtrip,
}
use ne_kiro_samples.RuntimeA.Engine.{Framework}
use ne_kiro_samples.RuntimeA.Handler.{
  Handler, Context, SendParams, on_send_message, answer, send_echo,
}

abbrev pub request : Claims → Option RequestMeta → Context
request c meta = record { call = some meta; claims = some c }

abbrev pub params_of : Message → Option SendParams
params_of m = some (record { message = some m })

-- A message of the agent: one data part, under the request's context and no task.
abbrev pub agent_message : (id context_id : String) → Fields → Message
agent_message id context_id fields = record {
  id = id;
  context_id = context_id;
  task_id = "";
  role = agent;
  parts = data_part (some fields) none ∷ [];
  extensions = [];
  metadata = none;
  reference_tasks = [];
}

-- The answer to an echo of a value with this JSON text.
abbrev pub echo_answer : Message → String → Message
echo_answer m encoded = agent_message ("runtime-a-responder-result-" ++ m.id) m.context_id (
    field "agent" (str "runtime-a")
      (field "fixture" (str "success") (field "value" (raw encoded) end)))

-- A request with claims of this agent goes to the branch of its capability.
pub on_send_message-answer :
    (lib : Library) (framework : Framework) (h : Handler) (c : Claims) (meta : Option RequestMeta)
    (m : Message)
    → c.agent_id ≡ h.config.agent_id
    → on_send_message lib framework h (request c meta) (params_of m)
      ≡ answer lib framework h c meta m
unfolding on_send_message
on_send_message-answer lib framework h c meta m own = rw same refl
  where
    same : (c.agent_id == h.config.agent_id) ≡ true
    same = (eq_iff c.agent_id h.config.agent_id).1 own

root_input_value-accepted :
    (lib : Library) (m : Message) {value : String}
    → root_input_value lib (some m) ≡ ok value
    → (input : String) × Accepts lib m input
unfolding root_input_value
root_input_value-accepted lib m e =
    bind_then (root_input lib (some m)) _ e
      λ input made e. (input, (root_input_iff lib m input).0 made)

module _ (lib : Library) (decodes : InputsDecode lib) (m : Message) (r : SendResult) where
  echo_sound :
      send_echo lib m ≡ ok r
      → (input : String) × (a : Accepts lib m input) × (r ≡ sent_message (echo_answer m a.encoded))
  unfolding send_echo responder_message
  echo_sound e = bind_then (root_input_value lib (some m)) _ e λ value made e.
      let (input, a) = root_input_value-accepted lib m made in
      (
        input,
        a,
        same value a.encoded (sym made ∙ root_input_value_roundtrip lib m input decodes a) e,
      )
    where
      same :
          (value encoded : String)
          → ◌≡◌ {A = Outcome String} (ok value) (ok encoded)
          → ◌≡◌ {A = Outcome SendResult} (ok (sent_message (responder_message m value))) (ok r)
          → r ≡ sent_message (echo_answer m encoded)
      same value encoded e f = cc

  echo_complete :
      (input : String) × (a : Accepts lib m input) × (r ≡ sent_message (echo_answer m a.encoded))
      → send_echo lib m ≡ ok r
  unfolding send_echo responder_message
  echo_complete (input, a, e) =
      rw (root_input_value_roundtrip lib m input decodes a) (ap ok (sym e))

  -- With inputs that decode, and for claims of this agent with the capability runtime.echo, message/send
  -- answers exactly the accepted messages, whatever the Router, the framework and the headers are: the
  -- answer is a message of the agent under an id made of the request's, in the request's context, with
  -- one data part that holds the agent's name, the fixture and, raw, the JSON text of the value.
  pub echo_iff :
      (framework : Framework) (h : Handler) (c : Claims) (meta : Option RequestMeta)
      → c.agent_id ≡ h.config.agent_id
      → c.capability ≡ "runtime.echo"
      → (on_send_message lib framework h (request c meta) (params_of m) ≡ ok r) ↔ (
          (input : String) × (a : Accepts lib m input) × (r
            ≡ sent_message (echo_answer m a.encoded)))
  echo_iff framework h c meta own echo =
      (λ e. echo_sound (sym (branch) ∙ e), λ a. branch ∙ echo_complete a)
    where
      chosen : (c.capability == "runtime.echo") ≡ true
      chosen = (eq_iff c.capability "runtime.echo").1 echo

      branch : on_send_message lib framework h (request c meta) (params_of m) ≡ send_echo lib m
      branch = on_send_message-answer lib framework h c meta m own ∙ rw chosen refl
