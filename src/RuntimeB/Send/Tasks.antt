-- ===== src/RuntimeB/Send/Tasks.antt =====
-- What message/send leaves alone.
use ne_kiro_samples.Base.{Option, ◌≡◌, refl, arith, Outcome, ok, err, panic}
use ne_kiro_samples.A2a.{Message, Value, str}
use ne_kiro_samples.Platform.{Library, Claims}
use ne_kiro_samples.RuntimeB.Fixture.{FixtureRequest, SendParams, parse_fixture}
use ne_kiro_samples.RuntimeB.Handler.{Handler}
use ne_kiro_samples.RuntimeB.Send.{
  on_send_message, send_parsed, dispatch_send, observe_cancellation,
}

-- message/send changes the counts of cancellations only.
abbrev pub SameTasks : Handler → Handler → Type 0
SameTasks h k = (k.objects ≡ h.objects) × (k.tasks ≡ h.tasks) × (k.instance_id ≡ h.instance_id)

observe-SameTasks :
    (lib : Library) (h : Handler) (claims : Option Claims) (message : Message) (value : Value)
    → SameTasks h (observe_cancellation lib h claims message value).0
unfolding observe_cancellation
observe-SameTasks lib h claims message (str marker) = ground arith
observe-SameTasks lib h claims message _ = (refl, refl, refl)

dispatch-SameTasks :
    (lib : Library) (h : Handler) (claims : Option Claims) (message : Message)
    (request : FixtureRequest)
    → SameTasks h (dispatch_send lib h claims message request).0
unfolding dispatch_send
dispatch-SameTasks lib h claims message request =
    ground (arith, observe-SameTasks lib h claims message request.value)

send_parsed-SameTasks :
    (lib : Library) (h : Handler) (claims : Option Claims)
    (parsed : Outcome (Message × FixtureRequest))
    → SameTasks h (send_parsed lib h claims parsed).0
send_parsed-SameTasks lib h claims (ok (message, request)) =
    dispatch-SameTasks lib h claims message request
send_parsed-SameTasks lib h claims (err e) = (refl, refl, refl)
send_parsed-SameTasks lib h claims (panic m) = (refl, refl, refl)

-- message/send, whatever the request, leaves the tasks, the map of their ids and the instance id as
-- they were.
pub on_send_message-SameTasks :
    (lib : Library) (h : Handler) (claims : Option Claims) (params : Option SendParams)
    → SameTasks h (on_send_message lib h claims params).0
unfolding on_send_message
on_send_message-SameTasks lib h claims params =
    send_parsed-SameTasks lib h claims (parse_fixture lib params)
