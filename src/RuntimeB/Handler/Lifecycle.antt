-- ===== src/RuntimeB/Handler/Lifecycle.antt =====
-- How a task changes: each operation of the handler leaves a task as it is, or ends one that works.
use ne_kiro_samples.Base.{
  ℕ, String, ◌≡◌, refl, inl, inr, Option, none, some, List, [], ◌∷◌, ◌++◌, get_elem?, set, Outcome,
  ok, err, panic, arith, Option-cases, text_cases, eq_iff, get_elem?-set_self, get_elem?-set_ne,
  get_elem?-append_old, get_elem?-set_cases,
}
use ne_kiro_samples.Base.Dict.{lookup}
use native.Mathlib.Decide.{ℕ_discrete}
use ne_kiro_samples.A2a.{TaskState, working, completed, canceled, other_state, Task, Message}
use ne_kiro_samples.Platform.{Library, Claims}
use ne_kiro_samples.RuntimeB.Fixture.{FixtureRequest}
use ne_kiro_samples.RuntimeB.Clone.{clone_message}
use ne_kiro_samples.RuntimeB.Handler.{
  RuntimeTask, Handler, find_task, with_state, count_cancellation, on_cancel_task,
  create_working_task, store_task, store_copied, complete_task, complete_found, remove_working_task,
  remove_found,
}
use ne_kiro_samples.RuntimeB.Handler.Sound.{IsSound, find_task-IsSound}
use ne_kiro_samples.RuntimeB.Handler.Cancel.{
  CancelCase, unknown, foreign, ended, stopped, on_cancel_task-CancelCase, canceled_task,
}

-- The moves of a task's state: the ended states are left by none.
pub data Advances (before after : TaskState) : Type 0 where
  stays : after ≡ before → Advances before after
  cancels : before ≡ working → after ≡ canceled → Advances before after
  completes : before ≡ working → after ≡ completed → Advances before after

-- A later version of a task: all but its state and its channel stays, and its state advances.
pub record Continues (t u : RuntimeTask) : Type 0 where
  pub same_id : u.task.id ≡ t.task.id
  pub same_context : u.task.context_id ≡ t.task.context_id
  pub same_history : u.task.history ≡ t.task.history
  pub same_artifacts : u.task.artifacts ≡ t.task.artifacts
  pub same_metadata : u.task.metadata ≡ t.task.metadata
  pub same_owner : u.owner ≡ t.owner
  pub same_observation : u.cancel_observation ≡ t.cancel_observation
  pub advances : Advances t.task.status.state u.task.status.state

pub Continues-refl : (t : RuntimeTask) → Continues t t
Continues-refl t = record {
  same_id = refl;
  same_context = refl;
  same_history = refl;
  same_artifacts = refl;
  same_metadata = refl;
  same_owner = refl;
  same_observation = refl;
  advances = stays refl;
}

canceled_task-Continues :
    (t : RuntimeTask) → t.task.status.state ≡ working → Continues t (canceled_task t)
canceled_task-Continues t live = record {
  same_id = refl;
  same_context = refl;
  same_history = refl;
  same_artifacts = refl;
  same_metadata = refl;
  same_owner = refl;
  same_observation = refl;
  advances = cancels live refl;
}

completed-Continues :
    (t : RuntimeTask) → t.task.status.state ≡ working → Continues t (with_state t completed)
completed-Continues t live = record {
  same_id = refl;
  same_context = refl;
  same_history = refl;
  same_artifacts = refl;
  same_metadata = refl;
  same_owner = refl;
  same_observation = refl;
  advances = completes live refl;
}

-- Every task of `xs` has a later version in its place in `ys`.
abbrev pub Evolves : List RuntimeTask → List RuntimeTask → Type 0
Evolves xs ys =
    (p : ℕ) (t : RuntimeTask)
    → get_elem? xs p ≡ some t
    → (u : RuntimeTask) × (get_elem? ys p ≡ some u) × Continues t u

-- The task at a pointer is completed by nothing that happened in between.
abbrev pub Uncompleted : List RuntimeTask → List RuntimeTask → ℕ → Type 0
Uncompleted xs ys p =
    (t u : RuntimeTask)
    → get_elem? xs p ≡ some t
    → get_elem? ys p ≡ some u
    → u.task.status.state ≡ completed
    → t.task.status.state ≡ completed

pub Evolves-refl : (xs : List RuntimeTask) → Evolves xs xs
Evolves-refl xs p t e = (t, e, Continues-refl t)

pub Evolves-set :
    (xs : List RuntimeTask) (q : ℕ) (old new : RuntimeTask)
    → get_elem? xs q ≡ some old
    → Continues old new
    → Evolves xs (set xs q new)
Evolves-set xs q old new at c p t e = elim (ℕ_discrete q p) [
  | yes here ↦
      (new, rw (← here) (get_elem?-set_self xs q new at), rw (same_task (rw here at at)) at c)
  | no other ↦ (t, rw (get_elem?-set_ne xs new other) e, Continues-refl t)
]
  where
    same_task : get_elem? xs p ≡ some old → old ≡ t
    same_task at' = cc

pub Evolves-append : (xs ys : List RuntimeTask) → Evolves xs (xs ++ ys)
Evolves-append xs ys p t e = (t, get_elem?-append_old xs ys p e, Continues-refl t)

pub count_cancellation-objects :
    (h : Handler) (t : RuntimeTask) → (count_cancellation h t).objects ≡ h.objects
unfolding count_cancellation
count_cancellation-objects h t = ground arith

module _ (lib : Library) {h : Handler} (v : IsSound lib h) where
  CancelCase-Evolves :
      (claims : Option Claims) (id : String) (r : Handler × Outcome Task)
      → CancelCase h claims id r
      → Evolves h.objects r.0.objects
  CancelCase-Evolves claims id r (unknown missing e) = rw e (Evolves-refl h.objects)
  CancelCase-Evolves claims id r (foreign p t found other e) = rw e (Evolves-refl h.objects)
  CancelCase-Evolves claims id r (ended p t found own over e) =
      rw (e, count_cancellation-objects h t) (Evolves-refl h.objects)
  CancelCase-Evolves claims id r (stopped p t found own live e) =
      let (key, at, same, sound) = find_task-IsSound lib h id v found in
      rw (e, count_cancellation-objects h t)
        (Evolves-set h.objects p t (canceled_task t) at (canceled_task-Continues t live))

  pub on_cancel_task-Evolves :
      (claims : Option Claims) (id : Option String)
      → Evolves h.objects (on_cancel_task lib h claims id).0.objects
  unfolding on_cancel_task
  on_cancel_task-Evolves claims none = Evolves-refl h.objects
  on_cancel_task-Evolves claims (some id) = elim (text_cases id "") [
    | inl e ↦ rw e (Evolves-refl h.objects)
    | inr e ↦
        CancelCase-Evolves claims id _
          (on_cancel_task-CancelCase lib h claims id v (λ q. ground (arith, eq_iff id "")))
  ]

  store_task-Evolves : (t : RuntimeTask) → Evolves h.objects (store_task h t).0.objects
  unfolding store_task
  store_task-Evolves t = elim (Option-cases (lookup t.task.id h.tasks)) [
    | inl free ↦ rw (free, store_task) (Evolves-append h.objects (t ∷ []))
    | inr (p, used) ↦ rw (used, store_task) (Evolves-refl h.objects)
  ]

  store_copied-Evolves :
      (claims : Option Claims) (message : Message) (request : FixtureRequest)
      (copied : Outcome Message)
      → Evolves h.objects (store_copied lib h claims message request copied).0.objects
  store_copied-Evolves claims message request (ok cloned) = store_task-Evolves _
  store_copied-Evolves claims message request (err x) = Evolves-refl h.objects
  store_copied-Evolves claims message request (panic m) = Evolves-refl h.objects

  pub create_working_task-Evolves :
      (claims : Option Claims) (message : Message) (request : FixtureRequest)
      → Evolves h.objects (create_working_task lib h claims message request).0.objects
  unfolding create_working_task
  create_working_task-Evolves claims message request =
      store_copied-Evolves claims message request (clone_message lib message)

  complete_found-Evolves :
      (p : ℕ) (t : RuntimeTask) (state : TaskState)
      → t.task.status.state ≡ state
      → get_elem? h.objects p ≡ some t
      → Evolves h.objects (complete_found h (some (p, t))).0.objects
  complete_found-Evolves p t working e at =
      rw (e, complete_found)
        (Evolves-set h.objects p t (with_state t completed) at (completed-Continues t e))
  complete_found-Evolves p t canceled e at = rw (e, complete_found) (Evolves-refl h.objects)
  complete_found-Evolves p t completed e at = rw (e, complete_found) (Evolves-refl h.objects)
  complete_found-Evolves p t (other_state s) e at = rw (e, complete_found) (Evolves-refl h.objects)

  pub complete_task-Evolves : (id : String) → Evolves h.objects (complete_task h id).0.objects
  unfolding complete_task
  complete_task-Evolves id = elim (Option-cases (find_task h id)) [
    | inl missing ↦ rw missing (Evolves-refl h.objects)
    | inr ((p, t), found) ↦
        rw found (complete_found-Evolves p t _ refl (find_task-IsSound lib h id v found).1)
  ]

remove_found-objects :
    (h : Handler) (id : String) (o : Option (ℕ × RuntimeTask))
    → (remove_found h id o).objects ≡ h.objects
remove_found-objects h id none = refl
remove_found-objects h id (some (p, t)) = ground arith

pub remove_working_task-objects :
    (h : Handler) (id : String) → (remove_working_task h id).objects ≡ h.objects
unfolding remove_working_task
remove_working_task-objects h id = remove_found-objects h id (find_task h id)

same_object : (xs : List RuntimeTask) (p : ℕ) → Uncompleted xs xs p
same_object xs p t u at at' e = ground arith

module _ (lib : Library) {h : Handler} (v : IsSound lib h) (q : ℕ) where
  CancelCase-Uncompleted :
      (claims : Option Claims) (id : String) (r : Handler × Outcome Task)
      → CancelCase h claims id r
      → Uncompleted h.objects r.0.objects q
  CancelCase-Uncompleted claims id r (unknown missing e) = rw e (same_object h.objects q)
  CancelCase-Uncompleted claims id r (foreign p t found other e) = rw e (same_object h.objects q)
  CancelCase-Uncompleted claims id r (ended p t found own over e) =
      rw (e, count_cancellation-objects h t) (same_object h.objects q)
  CancelCase-Uncompleted claims id r (stopped p t found own live e) =
      rw (e, count_cancellation-objects h t)
        (λ t' u at at' done. elim (get_elem?-set_cases h.objects p q (canceled_task t) u at') [
          | inl (here, same) ↦ clash u t same done
          | inr (other, before) ↦ same_object h.objects q t' u at before done
        ])
    where
      clash :
          {A : Type 0} (u t' : RuntimeTask)
          → u ≡ canceled_task t'
          → u.task.status.state ≡ completed
          → A
      clash u t' same done = absurd (ground arith)

  pub on_cancel_task-Uncompleted :
      (claims : Option Claims) (id : Option String)
      → Uncompleted h.objects (on_cancel_task lib h claims id).0.objects q
  unfolding on_cancel_task
  on_cancel_task-Uncompleted claims none = same_object h.objects q
  on_cancel_task-Uncompleted claims (some id) = elim (text_cases id "") [
    | inl e ↦ rw e (same_object h.objects q)
    | inr e ↦
        CancelCase-Uncompleted claims id _
          (on_cancel_task-CancelCase lib h claims id v (λ w. ground (arith, eq_iff id "")))
  ]
