-- ===== src/RuntimeB/System/Reachable.antt =====
-- Every request keeps the invariant, so it holds after any schedule.
use ne_kiro_samples.Base.{
  ℕ, String, true, ◌≡◌, refl, sym, ◌∙◌, ap, ◌≢◌, ◌⊎◌, inl, inr, Option, none, some, List, [], ◌∷◌,
  get_elem?, length, arith, Bool-cases, subst, ◌==◌, eq_iff, eq_refl, get_elem?-append_old,
  get_elem?-append_new, get_elem?-lt, get_elem?-append_cases,
}
use ne_kiro_samples.Base.Dict.{lookup, insert, lookup-insert}
use ne_kiro_samples.A2a.{working, completed, Message}
use ne_kiro_samples.Platform.{Library, Claims}
use ne_kiro_samples.RuntimeB.Fixture.{FixtureRequest, SendParams}
use ne_kiro_samples.RuntimeB.Clone.Laws.{CopiesAreStable, clone_message-stable}
use ne_kiro_samples.RuntimeB.Handler.{Handler, RuntimeTask, working_task}
use ne_kiro_samples.RuntimeB.Handler.Sound.{IsSound, IsSoundTask, append-IsSound}
use ne_kiro_samples.RuntimeB.Handler.Created.{with_task}
use ne_kiro_samples.RuntimeB.Handler.Preserve.{working_task-IsSound}
use ne_kiro_samples.RuntimeB.Handler.Lifecycle.{Evolves-refl, Evolves-append, Uncompleted}
use ne_kiro_samples.RuntimeB.Send.{on_send_message}
use ne_kiro_samples.RuntimeB.Send.Tasks.{SameTasks, on_send_message-SameTasks}
use ne_kiro_samples.RuntimeB.Stream.{Stream, StreamEvent, is_streamed}
use ne_kiro_samples.RuntimeB.Stream.Opening.{
  OpenCase, unread, broken, failing, unstreamed, uncopied, used, opened, opening,
  open_stream-OpenCase,
}
use ne_kiro_samples.RuntimeB.Stream.Script.{StreamFits, Later, StreamFits-Later}
use ne_kiro_samples.RuntimeB.System.{
  System, Operation, opens, resumes, cancels, sends, after_open, step, run,
}
use ne_kiro_samples.RuntimeB.System.Invariant.{
  IsConsistent, resumes-IsConsistent, cancels-IsConsistent, handled-IsConsistent,
}

SameTasks-IsSound : (lib : Library) (h k : Handler) → SameTasks h k → IsSound lib h → IsSound lib k
SameTasks-IsSound lib h k (objects, tasks, _) v = record {
  sound_tasks = rw objects v.sound_tasks;
  named = λ id. rw (objects, tasks) (v.named id);
}

module _ (lib : Library) (sys : System) (c : IsConsistent lib sys) where
  sends-IsConsistent :
      (claims : Option Claims) (params : Option SendParams)
      → IsConsistent lib (step lib sys (sends claims params))
  unfolding step
  sends-IsConsistent claims params =
      let same = on_send_message-SameTasks lib sys.handler claims params in
      handled-IsConsistent lib sys c (on_send_message lib sys.handler claims params).0
        (SameTasks-IsSound lib sys.handler _ same c.sound)
        (record { evolves = rw same.0 (Evolves-refl sys.handler.objects); same_instance = same.2 })
        same.1 (λ p t u at at' done. unmoved _ _ p t u same.0 at at' done)
    where
      unmoved :
          (xs ys : List RuntimeTask) (p : ℕ) (t u : RuntimeTask)
          → ys ≡ xs
          → get_elem? xs p ≡ some t
          → get_elem? ys p ≡ some u
          → u.task.status.state ≡ completed
          → t.task.status.state ≡ completed
      unmoved xs ys p t u same at at' done = ground arith

  module _ (t : RuntimeTask) (sound : IsSoundTask lib t) (live : t.task.status.state ≡ working)
      (free : lookup t.task.id sys.handler.tasks ≡ none) where
    with_task-keeps :
        (id : String) (p : ℕ)
        → lookup id sys.handler.tasks ≡ some p
        → lookup id (with_task sys.handler t).tasks ≡ some p
    with_task-keeps id p key =
        rw (lookup-insert t.task.id id (length sys.handler.objects) sys.handler.tasks)
          (elim (Bool-cases (t.task.id == id)) [
            | inl same ↦ absurd (clash ((eq_iff _ _).0 same))
            | inr other ↦ rw other key
          ])
      where
        clash : t.task.id ≡ id → ⊥
        clash e = let k : lookup id sys.handler.tasks ≡ none = rw (← e) free in cc

    with_task-Later : Later sys.handler (with_task sys.handler t)
    with_task-Later = record {
      evolves = Evolves-append sys.handler.objects (t ∷ []);
      same_instance = refl;
    }

    with_task-Uncompleted :
        (p : ℕ) → Uncompleted sys.handler.objects (with_task sys.handler t).objects p
    with_task-Uncompleted p u u' at at' done =
        ground (arith, get_elem?-append_old sys.handler.objects (t ∷ []) p at)

    opened-IsConsistent :
        (s : Stream)
        → StreamFits lib (with_task sys.handler t) s
        → s.pointer ≡ length sys.handler.objects
        → IsConsistent lib (after_open sys (with_task sys.handler t, inl s))
    opened-IsConsistent s f here = record {
      sound = append-IsSound lib sys.handler t c.sound sound;
      streams_fit = λ i r e. elim (get_elem?-append_cases sys.streams s i r e) [
        | inl there ↦
            StreamFits-Later lib sys.handler (with_task sys.handler t) r with_task-Later
              (λ id key. with_task-keeps id r.pointer key) (with_task-Uncompleted r.pointer)
              (c.streams_fit i r there)
        | inr (end, same) ↦ subst (StreamFits lib (with_task sys.handler t)) (sym same) f
      ];
      distinct = λ i j r q e e' same.
          paired i j r q (get_elem?-append_cases sys.streams s i r e)
            (get_elem?-append_cases sys.streams s j q e') same;
    }
      where
        old-lt : (j : ℕ) (q : Stream) → get_elem? sys.streams j ≡ some q → q.pointer ≢ s.pointer
        old-lt j q e same = absurd (
            omega (
              arith,
              get_elem?-lt sys.handler.objects q.pointer (c.streams_fit j q e).at,
              same,
              here,
            ))

        paired :
            (i j : ℕ) (r q : Stream)
            → (get_elem? sys.streams i ≡ some r) ⊎ ((i ≡ length sys.streams) × (r ≡ s))
            → (get_elem? sys.streams j ≡ some q) ⊎ ((j ≡ length sys.streams) × (q ≡ s))
            → r.pointer ≡ q.pointer
            → i ≡ j
        paired i j r q (inl e) (inl e') same = c.distinct i j r q e e' same
        paired i j r q (inl e) (inr (end, new)) same =
            absurd (old-lt i r e (same ∙ ap (λ x. x.pointer) new))
        paired i j r q (inr (end, new)) (inl e') same =
            absurd (old-lt j q e' (sym same ∙ ap (λ x. x.pointer) new))
        paired i j r q (inr (end, new)) (inr (end', new')) same = end ∙ sym end'

  opening-StreamFits :
      (claims : Option Claims) (message cloned : Message) (request : FixtureRequest)
      → is_streamed request.kind ≡ true
      → StreamFits lib
          (with_task sys.handler (working_task lib claims message cloned request))
          (opening sys.handler message request)
  unfolding working_task
  opening-StreamFits claims message cloned request streamed = record {
    object = working_task lib claims message cloned request;
    at = get_elem?-append_new sys.handler.objects (working_task lib claims message cloned request);
    streamed = streamed;
    fits = refl;
    owns = λ live. new_key (working_task lib claims message cloned request).task.id;
    open_ended = λ live e. cc;
  }
    where
      new_key :
          (id : String)
          → lookup id (insert id (length sys.handler.objects) sys.handler.tasks)
            ≡ some (length sys.handler.objects)
      new_key id =
          rw (lookup-insert id id (length sys.handler.objects) sys.handler.tasks, eq_refl id) refl

  after_open-IsConsistent :
      CopiesAreStable lib
      → (claims : Option Claims) (params : Option SendParams) (r : Handler × (Stream ⊎ StreamEvent))
      → OpenCase lib sys.handler claims params r
      → IsConsistent lib (after_open sys r)
  after_open-IsConsistent stable claims params r (unread e p q) = rw q c
  after_open-IsConsistent stable claims params r (broken text p q) = rw q c
  after_open-IsConsistent stable claims params r (failing m request p k q) = rw q c
  after_open-IsConsistent stable claims params r (unstreamed m request p k l q) = rw q c
  after_open-IsConsistent stable claims params r (uncopied m request e p k q) = rw q c
  after_open-IsConsistent stable claims params r (used m cloned request p k l t q) = rw q c
  after_open-IsConsistent stable claims params r
        (opened message cloned request parsed streamed copy free q) =
      rw q (
        opened-IsConsistent (working_task lib claims message cloned request)
          (working_task-IsSound lib c.sound claims message cloned request
            (clone_message-stable lib stable message cloned copy))
          (unfold working_task in refl) (unfold working_task in free)
          (opening sys.handler message request)
          (opening-StreamFits claims message cloned request streamed) refl)

-- One request on a consistent server leaves it consistent.
pub step-IsConsistent :
    (lib : Library) (sys : System) (o : Operation)
    → CopiesAreStable lib
    → IsConsistent lib sys
    → IsConsistent lib (step lib sys o)
unfolding step
step-IsConsistent lib sys (opens claims params) stable c =
    after_open-IsConsistent lib sys c stable claims params _
      (open_stream-OpenCase lib sys.handler claims params)
step-IsConsistent lib sys (resumes i signal) stable c = resumes-IsConsistent lib sys c i signal
step-IsConsistent lib sys (cancels claims id) stable c = cancels-IsConsistent lib sys c claims id
step-IsConsistent lib sys (sends claims params) stable c =
    sends-IsConsistent lib sys c claims params

-- If JSON copies are stable, a consistent server stays consistent under any requests in any order
-- (message/stream and its resumptions, tasks/cancel, message/send): the handler is well formed, no
-- two streams share a task, and every stream has sent a first part of its script and nothing else,
-- with at most one final event after it, which names the state of its task; completed is named only
-- after the whole script.
pub run-IsConsistent :
    (lib : Library) (sys : System) (os : List Operation)
    → CopiesAreStable lib
    → IsConsistent lib sys
    → IsConsistent lib (run lib sys os)
unfolding run
run-IsConsistent lib sys [] stable c = c
run-IsConsistent lib sys (o ∷ os) stable c =
    run-IsConsistent lib (step lib sys o) os stable (step-IsConsistent lib sys o stable c)
