-- ===== src/RuntimeB/System/Tasks.antt =====
-- What a schedule of requests does to a task.
use ne_kiro_samples.Base.{
  ℕ, String, ◌≡◌, ◌==◌, subst, none, some, length, Bool-cases, eq_iff, sym, ◌∙◌, ◌⊎◌, inl, inr,
  Option, List, [], ◌∷◌, get_elem?, Option-cases,
}
use ne_kiro_samples.A2a.{TaskState}
use ne_kiro_samples.Platform.{Library, Claims}
use ne_kiro_samples.RuntimeB.Clone.Laws.{CopiesAreStable}
use ne_kiro_samples.RuntimeB.Handler.{Handler, RuntimeTask}
use ne_kiro_samples.RuntimeB.Handler.Lifecycle.{
  Advances, stays, cancels as to_canceled, completes as to_completed, Continues, Evolves,
  Evolves-refl, Evolves-append, on_cancel_task-Evolves,
}
use ne_kiro_samples.RuntimeB.Send.Tasks.{on_send_message-SameTasks}
use ne_kiro_samples.RuntimeB.Stream.{Stream, StreamEvent}
use ne_kiro_samples.RuntimeB.Handler.{on_cancel_task, working_task}
use ne_kiro_samples.RuntimeB.Send.{on_send_message}
use ne_kiro_samples.RuntimeB.Stream.Opening.{
  OpenCase, unread, broken, failing, unstreamed, uncopied, used, opened, open_stream-OpenCase,
}
use ne_kiro_samples.RuntimeB.Stream.Follows.{resume-Resumed}
use ne_kiro_samples.RuntimeB.System.{
  System, Operation, opens, resumes, cancels, sends, after_open, step, run,
}
use ne_kiro_samples.RuntimeB.System.Kept.{
  KeepsEnded, same_tasks-KeepsEnded, resume-KeepsEnded, KeptTasks, KeepsEnded-KeptTasks,
  KeptTasks-refl,
}
use ne_kiro_samples.RuntimeB.Identity.{derived_id}
use ne_kiro_samples.RuntimeB.Fixture.{SendParams}
use ne_kiro_samples.RuntimeB.Handler.Keys.{on_cancel_task-SameKeys}
use ne_kiro_samples.Base.Dict.{lookup, insert, lookup-insert}
use ne_kiro_samples.RuntimeB.System.Invariant.{IsConsistent}
use ne_kiro_samples.RuntimeB.System.Reachable.{step-IsConsistent}

Advances-trans : (a b c : TaskState) → Advances a b → Advances b c → Advances a c
Advances-trans a b c (stays e) (stays f) = stays (f ∙ e)
Advances-trans a b c (stays e) (to_canceled f g) = to_canceled (sym e ∙ f) g
Advances-trans a b c (stays e) (to_completed f g) = to_completed (sym e ∙ f) g
Advances-trans a b c (to_canceled e f) (stays g) = to_canceled e (g ∙ f)
Advances-trans a b c (to_canceled e f) (to_canceled g k) = cc
Advances-trans a b c (to_canceled e f) (to_completed g k) = cc
Advances-trans a b c (to_completed e f) (stays g) = to_completed e (g ∙ f)
Advances-trans a b c (to_completed e f) (to_canceled g k) = cc
Advances-trans a b c (to_completed e f) (to_completed g k) = cc

Continues-trans : {t u w : RuntimeTask} → Continues t u → Continues u w → Continues t w
Continues-trans {t} {u} {w} c d = record {
  same_id = d.same_id ∙ c.same_id;
  same_context = d.same_context ∙ c.same_context;
  same_history = d.same_history ∙ c.same_history;
  same_artifacts = d.same_artifacts ∙ c.same_artifacts;
  same_metadata = d.same_metadata ∙ c.same_metadata;
  same_owner = d.same_owner ∙ c.same_owner;
  same_observation = d.same_observation ∙ c.same_observation;
  advances = Advances-trans _ _ _ c.advances d.advances;
}

Evolves-trans : (xs ys zs : List RuntimeTask) → Evolves xs ys → Evolves ys zs → Evolves xs zs
Evolves-trans xs ys zs f g p t e =
    let (u, there, c) = f p t e in let (w, then, d) = g p u there in (w, then, Continues-trans c d)

OpenCase-Evolves :
    (lib : Library) (sys : System) (claims : Option Claims) (params : Option SendParams)
    (r : Handler × (Stream ⊎ StreamEvent))
    → OpenCase lib sys.handler claims params r
    → Evolves sys.handler.objects (after_open sys r).handler.objects
OpenCase-Evolves lib sys claims params r (unread e parsed q) =
    rw q (Evolves-refl sys.handler.objects)
OpenCase-Evolves lib sys claims params r (broken text parsed q) =
    rw q (Evolves-refl sys.handler.objects)
OpenCase-Evolves lib sys claims params r (failing message request parsed kind q) =
    rw q (Evolves-refl sys.handler.objects)
OpenCase-Evolves lib sys claims params r (unstreamed message request parsed kind other q) =
    rw q (Evolves-refl sys.handler.objects)
OpenCase-Evolves lib sys claims params r (uncopied message request e parsed none_made q) =
    rw q (Evolves-refl sys.handler.objects)
OpenCase-Evolves lib sys claims params r (used message cloned request p parsed copy taken q) =
    rw q (Evolves-refl sys.handler.objects)
OpenCase-Evolves lib sys claims params r
      (opened message cloned request parsed streamed copy free q) =
    rw q (Evolves-append sys.handler.objects _)

OpenCase-KeepsEnded :
    (lib : Library) (sys : System) (claims : Option Claims) (params : Option SendParams)
    (r : Handler × (Stream ⊎ StreamEvent))
    → OpenCase lib sys.handler claims params r
    → KeepsEnded sys.handler (after_open sys r).handler
unfolding working_task derived_id
OpenCase-KeepsEnded lib sys claims params r (unread e parsed q) = rw q (λ id p t key at over. key)
OpenCase-KeepsEnded lib sys claims params r (broken text parsed q) =
    rw q (λ id p t key at over. key)
OpenCase-KeepsEnded lib sys claims params r (failing message request parsed kind q) =
    rw q (λ id p t key at over. key)
OpenCase-KeepsEnded lib sys claims params r (unstreamed message request parsed kind other q) =
    rw q (λ id p t key at over. key)
OpenCase-KeepsEnded lib sys claims params r (uncopied message request e parsed none_made q) =
    rw q (λ id p t key at over. key)
OpenCase-KeepsEnded lib sys claims params r (used message cloned request n parsed copy taken q) =
    rw q (λ id p t key at over. key)
OpenCase-KeepsEnded lib sys claims params r
      (opened message cloned request parsed streamed copy free q) =
    rw q (λ id p t key at over. stored id key)
  where
    made : String
    made = derived_id lib "task" message.id

    taken : (id : String) {p : ℕ} → lookup id sys.handler.tasks ≡ some p → made ≡ id → ⊥
    taken id key same = let there = subst (λ k. lookup k sys.handler.tasks ≡ none) same free in cc

    stored :
        (id : String) {p : ℕ}
        → lookup id sys.handler.tasks ≡ some p
        → lookup id (insert made (length sys.handler.objects) sys.handler.tasks) ≡ some p
    stored id key =
        rw (lookup-insert made id (length sys.handler.objects) sys.handler.tasks)
          (elim (Bool-cases (made == id)) [
            | inr other ↦ rw other key
            | inl same ↦ absurd (taken id key ((eq_iff made id).0 same))
          ])

step-Evolves :
    (lib : Library) (sys : System) (o : Operation)
    → IsConsistent lib sys
    → Evolves sys.handler.objects (step lib sys o).handler.objects
unfolding step
step-Evolves lib sys (opens claims params) c =
    OpenCase-Evolves lib sys claims params _ (open_stream-OpenCase lib sys.handler claims params)
step-Evolves lib sys (resumes i signal) c = elim (Option-cases (get_elem? sys.streams i)) [
  | inl missing ↦ rw missing (Evolves-refl sys.handler.objects)
  | inr (s, at) ↦
      rw at (resume-Resumed lib sys.handler s signal c.sound (c.streams_fit i s at)).later.evolves
]
step-Evolves lib sys (cancels claims id) c = on_cancel_task-Evolves lib c.sound claims id
step-Evolves lib sys (sends claims params) c =
    rw (on_send_message-SameTasks lib sys.handler claims params).0
      (Evolves-refl sys.handler.objects)

step-KeepsEnded :
    (lib : Library) (sys : System) (o : Operation) → KeepsEnded sys.handler (step lib sys o).handler
unfolding step
step-KeepsEnded lib sys (opens claims params) =
    OpenCase-KeepsEnded lib sys claims params _ (open_stream-OpenCase lib sys.handler claims params)
step-KeepsEnded lib sys (resumes i signal) = elim (Option-cases (get_elem? sys.streams i)) [
  | inl missing ↦ rw missing (λ id p t key at over. key)
  | inr (s, at) ↦ rw at (resume-KeepsEnded lib sys.handler s signal)
]
step-KeepsEnded lib sys (cancels claims id) =
    same_tasks-KeepsEnded sys.handler (on_cancel_task lib sys.handler claims id).0
      (on_cancel_task-SameKeys lib sys.handler claims id).0
step-KeepsEnded lib sys (sends claims params) =
    same_tasks-KeepsEnded sys.handler (on_send_message lib sys.handler claims params).0
      (on_send_message-SameTasks lib sys.handler claims params).1

KeptTasks-trans : (h k l : Handler) → KeptTasks h k → KeptTasks k l → KeptTasks h l
KeptTasks-trans h k l f g id p t found over =
    let (u, there, c, same) = f id p t found over in
    let (w, last, d, later) = g id p u there (λ live. over (sym same ∙ live)) in
    (w, last, Continues-trans c d, later ∙ same)

-- If JSON copies are stable, no requests in any order on a consistent server change the id, context,
-- history, owner or observation of a task that was ever made, and its state is the same after them, or
-- has gone from working to canceled or to completed; and a task that had ended and that its id found
-- is found under this id after them, in the state in which it ended.
pub run-Evolves :
    (lib : Library) (sys : System) (os : List Operation)
    → CopiesAreStable lib
    → IsConsistent lib sys
    → Evolves sys.handler.objects (run lib sys os).handler.objects
      × KeptTasks sys.handler (run lib sys os).handler
unfolding run
run-Evolves lib sys [] stable c = (Evolves-refl sys.handler.objects, KeptTasks-refl sys.handler)
run-Evolves lib sys (o ∷ os) stable c =
    let first = step-Evolves lib sys o c in
    let (later, kept) =
      run-Evolves lib (step lib sys o) os stable (step-IsConsistent lib sys o stable c) in
    (
      Evolves-trans _ _ _ first later,
      KeptTasks-trans sys.handler (step lib sys o).handler _
          (KeepsEnded-KeptTasks sys.handler (step lib sys o).handler (step-KeepsEnded lib sys o)
            first)
          kept,
    )
