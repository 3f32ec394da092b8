-- ===== src/RuntimeB/Registry/Refines.antt =====
-- The handler implements the table: each operation, and every sequence of them.
use ne_kiro_samples.Base.{
  ℕ, String, false, ◌≡◌, ◌≢◌, refl, ap, ◌∙◌, inl, inr, ◌==◌, if◌then◌else◌, Option, some, List, [],
  ◌∷◌, Outcome, ok, err, panic, invalid_params, arith, eq_iff, text_ne, text_cases, Bool-cases,
  Option-cases,
}
use mathlib.Core.Path.{ap₂}
use ne_kiro_samples.Base.Dict.{lookup}
use ne_kiro_samples.A2a.{Message, Task, TaskState, working, completed, canceled, other_state}
use ne_kiro_samples.Platform.{Library, Claims}
use ne_kiro_samples.RuntimeB.Identity.{derived_id, task_owner}
use ne_kiro_samples.RuntimeB.Fixture.{FixtureRequest}
use ne_kiro_samples.RuntimeB.Clone.{clone_message}
use ne_kiro_samples.RuntimeB.Clone.Laws.{CopiesAreStable, clone_message-stable}
use ne_kiro_samples.RuntimeB.Handler.{
  RuntimeTask, Handler, find_task, take_cancellation_observation, with_state, count_cancellation,
  is_working, on_cancel_task, complete_task, complete_found, remove_working_task,
  create_working_task, store_copied, store_task, working_task,
}
use ne_kiro_samples.RuntimeB.Handler.Sound.{IsSoundTask, find_task-IsSound}
use ne_kiro_samples.RuntimeB.Handler.Cancel.{
  CancelCase, unknown, foreign, ended, stopped, on_cancel_task-CancelCase, canceled_task,
  canceled_task-IsSound,
}
use ne_kiro_samples.RuntimeB.Handler.Created.{store_task-free, store_task-used}
use ne_kiro_samples.RuntimeB.Handler.Preserve.{
  take_cancellation_observation-IsSound, working_task-IsSound, completed-IsSoundTask,
}
use ne_kiro_samples.RuntimeB.Registry.{
  Call, creates, cancels, completes, removes, takes, Seen, count, state, nothing, seen_step, Table,
  mark, perform, specify, perform_all, specify_all, specify_create, specify_cancel,
  specify_complete, new_entry,
}
use ne_kiro_samples.RuntimeB.Registry.Shows.{
  Implements, Agrees, entry, held, missing, put-Implements, mark-Implements, forget-Implements,
  append-Implements, find_task-free, find_task-used, count_of-remove_any,
  count_cancellation-find_task,
}

module _ (lib : Library) (h : Handler) (r : Table) (i : Implements lib h r) where
  take-Agrees : (key : String) → Agrees lib (perform lib h (takes key)) (specify lib r (takes key))
  unfolding perform specify take_cancellation_observation find_task
  take-Agrees key = (
    record {
      sound = take_cancellation_observation-IsSound lib i.sound key;
      tasks = i.tasks;
      counts = λ j.
          count_of-remove_any key j h.cancellations
          ∙ ap (λ n. if key == j then 0 else n) (i.counts j);
    },
    ap (λ n. ok (count n)) (i.counts key),
  )

  complete_found-Agrees :
      (id : String) (p : ℕ) (t : RuntimeTask) (phase : TaskState)
      → find_task h id ≡ some (p, t)
      → t.task.status.state ≡ phase
      → Agrees lib
          (seen_step state (complete_found h (some (p, t))))
          (specify_complete r id (some (entry t)))
  complete_found-Agrees id p t working found live =
      rw (live, complete_found)
        (
          put-Implements lib h r i id p t (with_state t completed) found refl (
              completed-IsSoundTask lib i.sound t (find_task-IsSound lib h id i.sound found).3
                live),
          refl,
        )
  complete_found-Agrees id p t canceled found over = rw (over, complete_found) (i, refl)
  complete_found-Agrees id p t completed found over = rw (over, complete_found) (i, refl)
  complete_found-Agrees id p t (other_state s) found over = rw (over, complete_found) (i, refl)

  complete-Agrees :
      (id : String) → Agrees lib (perform lib h (completes id)) (specify lib r (completes id))
  unfolding perform specify complete_task
  complete-Agrees id = elim (Option-cases (find_task h id)) [
    | inl absent ↦ rw (absent, missing lib h r i id absent) (i, refl)
    | inr ((p, t), found) ↦
        rw (found, held lib h r i id found)
          (complete_found-Agrees id p t t.task.status.state found refl)
  ]

  remove-Agrees :
      (id : String) → Agrees lib (perform lib h (removes id)) (specify lib r (removes id))
  unfolding perform specify remove_working_task
  remove-Agrees id = elim (Option-cases (find_task h id)) [
    | inl absent ↦ rw (absent, missing lib h r i id absent) (i, refl)
    | inr ((p, t), found) ↦
        rw (found, held lib h r i id found)
          (elim (Bool-cases (is_working t.task.status.state)) [
            | inl live ↦ rw live (forget-Implements lib h r i id, refl)
            | inr over ↦ rw over (i, refl)
          ])
  ]

  ended_phase :
      (t : RuntimeTask) → t.task.status.state ≢ working → is_working t.task.status.state ≡ false
  ended_phase t over = ground arith

  cancel-Agrees :
      (claims : Option Claims) (id : String)
      → id ≢ ""
      → (c : Handler × Outcome Task) → CancelCase h claims id c
      → Agrees lib
          (seen_step (λ t. state t.status.state) c)
          (specify_cancel r id (task_owner claims) (r.tasks id))
  cancel-Agrees claims id given c (unknown absent e) = rw (e, missing lib h r i id absent) (i, refl)
  cancel-Agrees claims id given c (foreign p t found other e) =
      rw (e, held lib h r i id found, text_ne other) (i, refl)
  cancel-Agrees claims id given c (ended p t found own over e) =
      rw
        (e, held lib h r i id found, (eq_iff t.owner (task_owner claims)).1 own, ended_phase t over)
        (mark-Implements lib h r i t, refl)
  cancel-Agrees claims id given c (stopped p t found own live e) =
      rw
        (e, held lib h r i id found, (eq_iff t.owner (task_owner claims)).1 own, ap is_working live)
        (
          put-Implements lib (count_cancellation h t) (mark r t.cancel_observation)
              (mark-Implements lib h r i t) id p t (canceled_task t)
              (count_cancellation-find_task h t id ∙ found) refl
              (canceled_task-IsSound lib t (find_task-IsSound lib h id i.sound found).3),
          refl,
        )

  unnamed :
      (claims : Option Claims)
      → on_cancel_task lib h claims (some "") ≡ (h, err (invalid_params "task id is required"))
  unfolding on_cancel_task
  unnamed claims = refl

  on_cancel_task-Agrees :
      (claims : Option Claims) (id : String)
      → Agrees lib (perform lib h (cancels claims id)) (specify lib r (cancels claims id))
  unfolding perform specify
  on_cancel_task-Agrees claims id = elim (text_cases id "") [
    | inl empty ↦ rw (empty, unnamed claims) (i, refl)
    | inr given ↦ rw given (
        cancel-Agrees claims id (λ e. ground (arith, eq_iff id "")) _
          (on_cancel_task-CancelCase lib h claims id i.sound (λ e. ground (arith, eq_iff id ""))))
  ]

  stored-Agrees :
      (t : RuntimeTask)
      → IsSoundTask lib t
      → (cloned : Message)
      → Agrees lib
          (seen_step (λ p. nothing) (store_task h t))
          (specify_create r t.task.id (entry t) (ok cloned) (r.tasks t.task.id))
  stored-Agrees t kept cloned = elim (Option-cases (lookup t.task.id h.tasks)) [
    | inl free ↦
        rw
          (
            store_task-free h t free,
            missing lib h r i t.task.id (find_task-free lib h r i t.task.id free),
          )
          (append-Implements lib h r i t kept, refl)
    | inr (p, used) ↦
        let (u, there) = find_task-used lib h r i t.task.id p used in
        rw (store_task-used h t {p = p} used, held lib h r i t.task.id there) (i, refl)
  ]

  create_copied-Agrees :
      CopiesAreStable lib
      → (claims : Option Claims) (message : Message) (request : FixtureRequest)
        (copied : Outcome Message)
      → clone_message lib message ≡ copied
      → Agrees lib (seen_step (λ p. nothing) (store_copied lib h claims message request copied)) (
          specify_create r
            (derived_id lib "task" message.id)
            (new_entry claims request)
            copied
            (r.tasks (derived_id lib "task" message.id)))
  unfolding working_task
  create_copied-Agrees stable claims message request (ok cloned) e =
      stored-Agrees (working_task lib claims message cloned request)
        (working_task-IsSound lib i.sound claims message cloned request
          (clone_message-stable lib stable message cloned e))
        cloned
  create_copied-Agrees stable claims message request (err failed) e = (i, refl)
  create_copied-Agrees stable claims message request (panic m) e = (i, refl)

  create-Agrees :
      CopiesAreStable lib
      → (claims : Option Claims) (message : Message) (request : FixtureRequest)
      → Agrees lib
          (perform lib h (creates claims message request))
          (specify lib r (creates claims message request))
  unfolding perform specify create_working_task
  create-Agrees stable claims message request =
      create_copied-Agrees stable claims message request (clone_message lib message) refl

  -- One call on a handler that shows a table: the result is the table's, and the handler shows the table
  -- that the call leaves.
  pub perform-Agrees :
      CopiesAreStable lib → (c : Call) → Agrees lib (perform lib h c) (specify lib r c)
  perform-Agrees stable (creates claims message request) =
      create-Agrees stable claims message request
  perform-Agrees stable (cancels claims id) = on_cancel_task-Agrees claims id
  perform-Agrees stable (completes id) = complete-Agrees id
  perform-Agrees stable (removes id) = remove-Agrees id
  perform-Agrees stable (takes key) = take-Agrees key

abbrev pub AllAgree : Library → Handler × List (Outcome Seen) → Table × List (Outcome Seen) → Type 0
AllAgree lib (h, os) (r, es) = Implements lib h r × (os ≡ es)

-- If JSON copies are stable, a handler that shows a table implements it: any sequence of creations,
-- cancellations, completions, removals and readings of counts has the results that the table
-- prescribes, and leaves a well-formed handler that shows the table that it prescribes.
pub perform_all-refines :
    (lib : Library) (h : Handler) (r : Table) (calls : List Call)
    → CopiesAreStable lib
    → Implements lib h r
    → AllAgree lib (perform_all lib h calls) (specify_all lib r calls)
unfolding perform_all specify_all
perform_all-refines lib h r [] stable i = (i, refl)
perform_all-refines lib h r (c ∷ calls) stable i =
    let (next, same) = perform-Agrees lib h r i stable c in
    let (last, rest) =
      perform_all-refines lib (perform lib h c).0 (specify lib r c).0 calls stable next in
    (last, ap₂ (λ o os. o ∷ os) same rest)
