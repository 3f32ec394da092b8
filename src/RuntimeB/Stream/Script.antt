-- ===== src/RuntimeB/Stream/Script.antt =====
-- What a stream may send: the script of its fixture, and how far a stream that stands at a given
-- place has come in it.
use ne_kiro_samples.Base.{
  ℕ, suc, String, Bool, true, false, ◌≡◌, ◌≢◌, ◌⊎◌, inl, inr, some, List, [], ◌∷◌, ◌++◌, take,
  get_elem?, not, arith, sym, ◌∙◌,
}
use mathlib.Core.Path.{ap₂}
use ne_kiro_samples.Base.Dict.{lookup}
use ne_kiro_samples.A2a.{TaskState, completed, canceled, Task}
use ne_kiro_samples.Platform.{Library}
use ne_kiro_samples.RuntimeB.Fixture.{hold, stream_success}
use ne_kiro_samples.RuntimeB.Handler.{RuntimeTask, Handler, status_of}
use ne_kiro_samples.RuntimeB.Handler.Lifecycle.{Continues, Evolves, Uncompleted}
use ne_kiro_samples.RuntimeB.Stream.{
  StreamEvent, task_event, message_event, status_event, Stream, Place, created, at_task, holding,
  at_message, at_artifact, at_last, closing, finished, stream_message, artifact_update,
  status_update, artifact_at, is_hold, is_streamed,
}

abbrev pub task_in : RuntimeTask → TaskState → Task
task_in t state = record t.task { status = status_of state }

-- The four events of a stream that is not disturbed, before its final status; the first shows the
-- task in the state that it had then.
abbrev pub script : Library → Handler → Stream → RuntimeTask → TaskState → List StreamEvent
script lib h s t shown =
    task_event (task_in t shown)
    ∷ message_event (stream_message lib h t.task s.request)
    ∷ artifact_at lib h s t false false 0
    ∷ artifact_at lib h s t true true 1
    ∷ []

abbrev pub final_event : RuntimeTask → TaskState → StreamEvent
final_event t state = status_event (status_update t.task state true)

module _ (lib : Library) (h : Handler) (s : Stream) (t : RuntimeTask) where
  -- The first n events of the script, and nothing else.
  abbrev pub Sent : ℕ → Type 0
  Sent n = (shown : TaskState) × (s.events ≡ take n (script lib h s t shown))

  -- A final event follows, the task's state is the one that it names, and a completion follows
  -- the whole script only.
  abbrev pub Closed : Type 0
  Closed =
      ((n : ℕ) × (shown : TaskState) × (s.events
          ≡ take (suc n) (script lib h s t shown) ++ final_event t canceled ∷ [])
        × (t.task.status.state ≡ canceled))
      ⊎ ((shown : TaskState) × (s.events ≡ script lib h s t shown ++ final_event t completed ∷ [])
          × (s.request.kind ≡ stream_success)
          × (t.task.status.state ≡ completed))

  abbrev pub Fits : Place → Bool → Type 0
  Fits created false = s.events ≡ []
  Fits at_task false = Sent 1
  Fits holding false = (s.request.kind ≡ hold) × Sent 1
  Fits at_message false = (is_hold s.request.kind ≡ false) × Sent 2
  Fits at_artifact false = (is_hold s.request.kind ≡ false) × Sent 3
  Fits at_last false = (s.request.kind ≡ stream_success) × Sent 4
  Fits finished false = (n : ℕ) × Sent n
  Fits closing true = Closed
  Fits finished true = Closed
  Fits closing false = ⊥
  Fits _ true = ⊥

-- Before its final event a stream has its deferred clean-up ahead.
abbrev pub is_live : Place → Bool → Bool
is_live finished terminal = false
is_live _ terminal = not terminal

-- A stream and its task in a handler: they fit, and while the stream is live its task stands in
-- the map under its id and is not completed.
pub record StreamFits (lib : Library) (h : Handler) (s : Stream) : Type 0 where
  pub object : RuntimeTask
  pub at : get_elem? h.objects s.pointer ≡ some object
  pub streamed : is_streamed s.request.kind ≡ true
  pub fits : Fits lib h s object s.place s.terminal
  pub owns : is_live s.place s.terminal ≡ true → lookup object.task.id h.tasks ≡ some s.pointer
  pub open_ended : is_live s.place s.terminal ≡ true → object.task.status.state ≢ completed

-- A later handler in which the tasks have advanced and the instance is the same.
pub record Later (h k : Handler) : Type 0 where
  pub evolves : Evolves h.objects k.objects
  pub same_instance : k.instance_id ≡ h.instance_id

module _ {t u : RuntimeTask} (c : Continues t u) where
  final_event-Continues : (state : TaskState) → final_event u state ≡ final_event t state
  unfolding status_update
  final_event-Continues state = ground arith

  canceled-Continues : t.task.status.state ≡ canceled → u.task.status.state ≡ canceled
  canceled-Continues e = ground arith

  completed-Continues : t.task.status.state ≡ completed → u.task.status.state ≡ completed
  completed-Continues e = ground arith

module _ (lib : Library) (h k : Handler) (s : Stream) {t u : RuntimeTask}
    (same : k.instance_id ≡ h.instance_id) (c : Continues t u) where
  script-Continues : (shown : TaskState) → script lib k s u shown ≡ script lib h s t shown
  unfolding stream_message artifact_update
  script-Continues shown = ground arith

  Sent-Continues : (n : ℕ) → Sent lib h s t n → Sent lib k s u n
  Sent-Continues n (shown, e) = (shown, rw (script-Continues shown) e)

  Closed-Continues : Closed lib h s t → Closed lib k s u
  Closed-Continues (inl (n, shown, e, over)) = inl (
    n,
    shown,
    e
        ∙ ap₂ (λ xs f. take (suc n) xs ++ f ∷ []) (sym (script-Continues shown))
            (sym (final_event-Continues c canceled)),
    canceled-Continues c over,
  )
  Closed-Continues (inr (shown, e, kind, over)) = inr (
    shown,
    e
        ∙ ap₂ (λ xs f. xs ++ f ∷ []) (sym (script-Continues shown))
            (sym (final_event-Continues c completed)),
    kind,
    completed-Continues c over,
  )

  pub Fits-Continues :
      (place : Place) (terminal : Bool)
      → Fits lib h s t place terminal
      → Fits lib k s u place terminal
  Fits-Continues created false f = f
  Fits-Continues at_task false f = Sent-Continues 1 f
  Fits-Continues holding false f = (f.0, Sent-Continues 1 f.1)
  Fits-Continues at_message false f = (f.0, Sent-Continues 2 f.1)
  Fits-Continues at_artifact false f = (f.0, Sent-Continues 3 f.1)
  Fits-Continues at_last false f = (f.0, Sent-Continues 4 f.1)
  Fits-Continues finished false f = (f.0, Sent-Continues f.0 f.1)
  Fits-Continues closing true f = Closed-Continues f
  Fits-Continues finished true f = Closed-Continues f
  Fits-Continues closing false f = absurd f
  Fits-Continues _ true f = absurd f

-- What other requests do leaves a stream where it fits, as long as its key stays in the map.
pub StreamFits-Later :
    (lib : Library) (h k : Handler) (s : Stream)
    → Later h k
    → ((id : String) → lookup id h.tasks ≡ some s.pointer → lookup id k.tasks ≡ some s.pointer)
    → Uncompleted h.objects k.objects s.pointer
    → StreamFits lib h s
    → StreamFits lib k s
StreamFits-Later lib h k s later keeps none_completed v =
    let (u, at, c) = later.evolves s.pointer v.object v.at in
    record {
      object = u;
      at = at;
      streamed = v.streamed;
      fits = Fits-Continues lib h k s later.same_instance c s.place s.terminal v.fits;
      owns = λ live. rw c.same_id (keeps v.object.task.id (v.owns live));
      open_ended = λ live e. v.open_ended live (none_completed v.object u v.at at e);
    }
