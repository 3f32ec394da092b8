-- ===== src/RuntimeB/System/Invariant.antt =====
-- The invariant of the running server: its handler is well formed, and every stream fits its
-- script and has a task of its own.
use ne_kiro_samples.Base.{
  ℕ, String, ◌≡◌, sym, ◌∙◌, ap, ◌≢◌, ◌⊎◌, inl, inr, Option, some, get_elem?, arith, Option-cases,
  get_elem?-set_cases, subst,
}
use ne_kiro_samples.A2a.{completed}
use ne_kiro_samples.Platform.{Library, Claims}
use ne_kiro_samples.RuntimeB.Handler.{Handler, RuntimeTask, on_cancel_task}
use ne_kiro_samples.RuntimeB.Handler.Sound.{IsSound}
use ne_kiro_samples.RuntimeB.Handler.Preserve.{on_cancel_task-IsSound}
use ne_kiro_samples.RuntimeB.Handler.Lifecycle.{
  Uncompleted, on_cancel_task-Evolves, on_cancel_task-Uncompleted,
}
use ne_kiro_samples.RuntimeB.Handler.Keys.{on_cancel_task-SameKeys}
use ne_kiro_samples.RuntimeB.Stream.{Stream, Signal}
use ne_kiro_samples.RuntimeB.Stream.Script.{StreamFits, Later, StreamFits-Later}
use ne_kiro_samples.RuntimeB.Stream.Resumed.{Resumed}
use ne_kiro_samples.RuntimeB.Stream.Follows.{resume-Resumed}
use ne_kiro_samples.RuntimeB.System.{System, resumes, cancels, after_resume, step, idle}

pub record IsConsistent (lib : Library) (sys : System) : Type 0 where
  pub sound : IsSound lib sys.handler
  pub streams_fit :
      (i : ℕ) (s : Stream) → get_elem? sys.streams i ≡ some s → StreamFits lib sys.handler s
  pub distinct :
      (i j : ℕ) (s r : Stream)
      → get_elem? sys.streams i ≡ some s
      → get_elem? sys.streams j ≡ some r
      → s.pointer ≡ r.pointer
      → i ≡ j

pub idle-IsConsistent : (lib : Library) (h : Handler) → IsSound lib h → IsConsistent lib (idle h)
idle-IsConsistent lib h v = record {
  sound = v;
  streams_fit = λ i s e. cc;
  distinct = λ i j s r e. cc;
}

module _ (lib : Library) (sys : System) (c : IsConsistent lib sys) where
  -- A stream that was there before fits after a step of another one.
  other-fits :
      (i j : ℕ) (s s' r : Stream) (h : Handler)
      → get_elem? sys.streams i ≡ some s
      → i ≢ j
      → get_elem? sys.streams j ≡ some r
      → Resumed lib sys.handler s (h, s')
      → StreamFits lib h r
  other-fits i j s s' r h at other there m =
      StreamFits-Later lib sys.handler h r m.later (λ id key. m.keeps id r.pointer key apart)
        (λ t u before after done. unmoved t u before (m.others r.pointer apart) after done)
        (c.streams_fit j r there)
    where
      apart : r.pointer ≢ s.pointer
      apart q = other (c.distinct i j s r at there (sym q))

      unmoved :
          (t u : RuntimeTask)
          → get_elem? sys.handler.objects r.pointer ≡ some t
          → get_elem? h.objects r.pointer ≡ get_elem? sys.handler.objects r.pointer
          → get_elem? h.objects r.pointer ≡ some u
          → u.task.status.state ≡ completed
          → t.task.status.state ≡ completed
      unmoved t u before same after done = ground arith

  Resumed-IsConsistent :
      (i : ℕ) (s : Stream)
      → get_elem? sys.streams i ≡ some s
      → (r : Handler × Stream) → Resumed lib sys.handler s r
      → IsConsistent lib (after_resume sys i r)
  Resumed-IsConsistent i s at (h, s') m = record {
    sound = m.sound;
    streams_fit = λ j r e. elim (get_elem?-set_cases sys.streams i j s' r e) [
      | inl (here, same) ↦ subst (StreamFits lib h) (sym same) m.fits
      | inr (other, there) ↦ other-fits i j s s' r h at other there m
    ];
    distinct = λ j k r q e f same.
        paired j k r q (get_elem?-set_cases sys.streams i j s' r e)
          (get_elem?-set_cases sys.streams i k s' q f) same;
  }
    where
      paired :
          (j k : ℕ) (r q : Stream)
          → ((i ≡ j) × (r ≡ s')) ⊎ ((i ≢ j) × (get_elem? sys.streams j ≡ some r))
          → ((i ≡ k) × (q ≡ s')) ⊎ ((i ≢ k) × (get_elem? sys.streams k ≡ some q))
          → r.pointer ≡ q.pointer
          → j ≡ k
      paired j k r q (inl (a, b)) (inl (a', b')) same = sym a ∙ a'
      paired j k r q (inl (a, b)) (inr (a', b')) same =
          sym a
          ∙ c.distinct i k s q at b' (sym m.same_pointer ∙ (ap (λ x. x.pointer) (sym b) ∙ same))
      paired j k r q (inr (a, b)) (inl (a', b')) same =
          c.distinct j i r s b at (same ∙ (ap (λ x. x.pointer) b' ∙ m.same_pointer)) ∙ a'
      paired j k r q (inr (a, b)) (inr (a', b')) same = c.distinct j k r q b b' same

  pub resumes-IsConsistent :
      (i : ℕ) (signal : Signal) → IsConsistent lib (step lib sys (resumes i signal))
  unfolding step
  resumes-IsConsistent i signal = elim (Option-cases (get_elem? sys.streams i)) [
    | inl missing ↦ rw missing c
    | inr (s, at) ↦ rw at (
        Resumed-IsConsistent i s at _
          (resume-Resumed lib sys.handler s signal c.sound (c.streams_fit i s at)))
  ]

  -- A request that leaves the streams and the map of tasks alone, and completes no task.
  pub handled-IsConsistent :
      (h : Handler)
      → IsSound lib h
      → Later sys.handler h
      → h.tasks ≡ sys.handler.tasks
      → ((p : ℕ) → Uncompleted sys.handler.objects h.objects p)
      → IsConsistent lib (record sys { handler = h })
  handled-IsConsistent h v later same none_completed = record {
    sound = v;
    streams_fit = λ i s at.
        StreamFits-Later lib sys.handler h s later (λ id key. rw same key)
          (none_completed s.pointer) (c.streams_fit i s at);
    distinct = c.distinct;
  }

  pub cancels-IsConsistent :
      (claims : Option Claims) (id : Option String)
      → IsConsistent lib (step lib sys (cancels claims id))
  unfolding step
  cancels-IsConsistent claims id =
      let (tasks, instance) = on_cancel_task-SameKeys lib sys.handler claims id in
      handled-IsConsistent (on_cancel_task lib sys.handler claims id).0
        (on_cancel_task-IsSound lib c.sound claims id)
        (record {
          evolves = on_cancel_task-Evolves lib c.sound claims id;
          same_instance = instance;
        })
        tasks (λ p. on_cancel_task-Uncompleted lib c.sound p claims id)
