-- ===== src/RuntimeB/Handler/Preserve.antt =====
-- Every operation of the handler keeps it well formed.
use ne_kiro_samples.Base.{
  ℕ, String, ◌≡◌, refl, inl, inr, Option, none, some, ◌==◌, get_elem?, Outcome, ok, err, panic,
  arith, Option-cases, Bool-cases, text_cases, eq_iff,
}
use ne_kiro_samples.Base.Dict.{lookup}
use ne_kiro_samples.A2a.{TaskState, working, completed, canceled, other_state, Task, Message}
use ne_kiro_samples.Platform.{Library, Claims}
use ne_kiro_samples.RuntimeB.Fixture.{FixtureRequest}
use ne_kiro_samples.RuntimeB.Clone.{clone_message}
use ne_kiro_samples.RuntimeB.Clone.Laws.{CopiesAreStable, clone_message-stable}
use ne_kiro_samples.RuntimeB.Handler.{
  RuntimeTask, Handler, find_task, with_state, count_cancellation, on_cancel_task,
  create_working_task, store_task, store_copied, working_task, complete_task, complete_found,
  remove_working_task, take_cancellation_observation, is_working,
}
use ne_kiro_samples.RuntimeB.Handler.Sound.{
  IsSoundTask, IsSound, find_task-IsSound, write-IsSound, append-IsSound, remove-IsSound,
}
use ne_kiro_samples.RuntimeB.Handler.Cancel.{
  CancelCase, unknown, foreign, ended, stopped, on_cancel_task-CancelCase, canceled_task,
  canceled_task-IsSound,
}

pub count_cancellation-IsSound :
    (lib : Library) (h : Handler) (t : RuntimeTask)
    → IsSound lib h
    → IsSound lib (count_cancellation h t)
unfolding count_cancellation
count_cancellation-IsSound lib h t v = elim (Bool-cases (t.cancel_observation == "")) [
  | inl e ↦ rw e v
  | inr e ↦ rw e (record { sound_tasks = v.sound_tasks; named = v.named })
]

count_cancellation-objects :
    (h : Handler) (t : RuntimeTask) → (count_cancellation h t).objects ≡ h.objects
unfolding count_cancellation
count_cancellation-objects h t = ground arith

module _ (lib : Library) {h : Handler} (v : IsSound lib h) where
  CancelCase-IsSound :
      (claims : Option Claims) (id : String) (r : Handler × Outcome Task)
      → CancelCase h claims id r
      → IsSound lib r.0
  CancelCase-IsSound claims id r (unknown missing e) = rw e v
  CancelCase-IsSound claims id r (foreign p t found other e) = rw e v
  CancelCase-IsSound claims id r (ended p t found own over e) =
      rw e (count_cancellation-IsSound lib h t v)
  CancelCase-IsSound claims id r (stopped p t found own live e) =
      let (key, at, same, sound) = find_task-IsSound lib h id v found in
      rw e (
        write-IsSound lib (count_cancellation h t) p t (canceled_task t)
          (count_cancellation-IsSound lib h t v) (rw (count_cancellation-objects h t) at) refl
          (canceled_task-IsSound lib t sound))

  pub on_cancel_task-IsSound :
      (claims : Option Claims) (id : Option String) → IsSound lib (on_cancel_task lib h claims id).0
  unfolding on_cancel_task
  on_cancel_task-IsSound claims none = v
  on_cancel_task-IsSound claims (some id) = elim (text_cases id "") [
    | inl e ↦ rw e v
    | inr e ↦
        CancelCase-IsSound claims id _
          (on_cancel_task-CancelCase lib h claims id v (λ q. ground (arith, eq_iff id "")))
  ]

  store_task-IsSound : (t : RuntimeTask) → IsSoundTask lib t → IsSound lib (store_task h t).0
  unfolding store_task
  store_task-IsSound t sound = elim (Option-cases (lookup t.task.id h.tasks)) [
    | inl free ↦ rw (free, store_task) (append-IsSound lib h t v sound)
    | inr (p, used) ↦ rw (used, store_task) v
  ]

  pub working_task-IsSound :
      (claims : Option Claims) (message cloned : Message) (request : FixtureRequest)
      → clone_message lib cloned ≡ ok cloned
      → IsSoundTask lib (working_task lib claims message cloned request)
  unfolding working_task
  working_task-IsSound claims message cloned request e = record {
    phase = refl;
    no_status_message = refl;
    no_timestamp = refl;
    no_metadata = refl;
    no_artifacts = refl;
    history_copies = rw e refl;
  }

  store_copied-IsSound :
      CopiesAreStable lib
      → (claims : Option Claims) (message : Message) (request : FixtureRequest)
        (copied : Outcome Message)
      → clone_message lib message ≡ copied
      → IsSound lib (store_copied lib h claims message request copied).0
  store_copied-IsSound stable claims message request (ok cloned) e = store_task-IsSound _ (
      working_task-IsSound claims message cloned request
        (clone_message-stable lib stable message cloned e))
  store_copied-IsSound stable claims message request (err x) e = v
  store_copied-IsSound stable claims message request (panic m) e = v

  pub create_working_task-IsSound :
      CopiesAreStable lib
      → (claims : Option Claims) (message : Message) (request : FixtureRequest)
      → IsSound lib (create_working_task lib h claims message request).0
  unfolding create_working_task
  create_working_task-IsSound stable claims message request =
      store_copied-IsSound stable claims message request (clone_message lib message) refl

  pub take_cancellation_observation-IsSound :
      (marker : String) → IsSound lib (take_cancellation_observation h marker).0
  unfolding take_cancellation_observation
  take_cancellation_observation-IsSound marker = record {
    sound_tasks = v.sound_tasks;
    named = v.named;
  }

  pub completed-IsSoundTask :
      (t : RuntimeTask)
      → IsSoundTask lib t
      → t.task.status.state ≡ working
      → IsSoundTask lib (with_state t completed)
  completed-IsSoundTask t sound live = record {
    phase = ground arith;
    no_status_message = refl;
    no_timestamp = refl;
    no_metadata = sound.no_metadata;
    no_artifacts = sound.no_artifacts;
    history_copies = sound.history_copies;
  }

  complete_found-IsSound :
      (p : ℕ) (t : RuntimeTask) (state : TaskState)
      → t.task.status.state ≡ state
      → get_elem? h.objects p ≡ some t
      → IsSoundTask lib t
      → IsSound lib (complete_found h (some (p, t))).0
  complete_found-IsSound p t working e at sound =
      rw (e, complete_found)
        (write-IsSound lib h p t (with_state t completed) v at refl
          (completed-IsSoundTask t sound e))
  complete_found-IsSound p t canceled e at sound = rw (e, complete_found) v
  complete_found-IsSound p t completed e at sound = rw (e, complete_found) v
  complete_found-IsSound p t (other_state s) e at sound = rw (e, complete_found) v

  pub complete_task-IsSound : (id : String) → IsSound lib (complete_task h id).0
  unfolding complete_task
  complete_task-IsSound id = elim (Option-cases (find_task h id)) [
    | inl missing ↦ rw missing v
    | inr ((p, t), found) ↦
        let (key, at, same, sound) = find_task-IsSound lib h id v found in
        rw found (complete_found-IsSound p t _ refl at sound)
  ]

  pub remove_working_task-IsSound : (id : String) → IsSound lib (remove_working_task h id)
  unfolding remove_working_task
  remove_working_task-IsSound id = elim (Option-cases (find_task h id)) [
    | inl missing ↦ rw missing v
    | inr ((p, t), found) ↦ rw found (elim (Bool-cases (is_working t.task.status.state)) [
      | inl e ↦ rw e (remove-IsSound lib h id v)
      | inr e ↦ rw e v
    ])
  ]
