-- ===== src/RuntimeB/Stream/Stopped.antt =====
-- How streams end early: the consumer stops reading, or the owner cancels a hold task.
use ne_kiro_samples.Base.{
  ℕ, String, Bool, true, false, ◌≡◌, refl, sym, ◌≢◌, inl, inr, Option, none, some, ◌∷◌, [], ◌++◌,
  ◌==◌, get_elem?, arith, eq_refl, Bool-cases, text_ne, All-get_elem?, if◌then◌else◌,
}
use ne_kiro_samples.Base.Dict.{remove, lookup-remove}
use ne_kiro_samples.A2a.{working, canceled}
use ne_kiro_samples.Platform.{Library, Claims}
use ne_kiro_samples.RuntimeB.Identity.{task_owner}
use ne_kiro_samples.RuntimeB.Handler.{
  Handler, RuntimeTask, find_task, on_cancel_task, remove_working_task,
}
use ne_kiro_samples.RuntimeB.Handler.Sound.{IsSound, IsSoundTask}
use ne_kiro_samples.RuntimeB.Handler.Cancel.{on_cancel_task-CancelCase, working-open}
use ne_kiro_samples.RuntimeB.Handler.Race.{cancel-object}
use ne_kiro_samples.RuntimeB.Stream.{
  Stream, Place, at_task, at_message, at_artifact, at_last, holding, finished, continue, stop,
  is_hold, run_deferred, status_update, resume, resume_at,
}
use ne_kiro_samples.RuntimeB.Stream.Script.{final_event}

abbrev pub is_yield : Place → Bool
is_yield at_task = true
is_yield at_message = true
is_yield at_artifact = true
is_yield at_last = true
is_yield _ = false

resume_at-stop :
    (lib : Library) (h : Handler) (s : Stream) (t : RuntimeTask) (place : Place)
    → is_yield place ≡ true
    → resume_at lib h s t place stop ≡ run_deferred h s t.task.id
unfolding resume_at
resume_at-stop lib h s t place e = ground arith

-- After the clean-up of an unfinished task its id is free, and every other id finds what it found.
removed_lem :
    (h : Handler) (t : RuntimeTask) (p : ℕ)
    → find_task h t.task.id ≡ some (p, t)
    → t.task.status.state ≡ working
    → remove_working_task h t.task.id ≡ record h { tasks = remove t.task.id h.tasks }
unfolding remove_working_task
removed_lem h t p found live = rw (found, live) refl

find_task-removed :
    (h : Handler) (k id : String)
    → find_task (record h { tasks = remove k h.tasks }) id
      ≡ (if k == id then none else find_task h id)
unfolding find_task
find_task-removed h k id =
    rw (lookup-remove k id h.tasks)
      (elim (Bool-cases (k == id)) [ inl same ↦ rw same refl | inr other ↦ rw other refl ])

-- When the consumer of a stream that is not a hold stream stops at one of its events and its task
-- is working, the stream ends with nothing more sent, the id of the task is free again, and every
-- other id finds the task that it found.
pub stop_frees_id :
    (lib : Library) (h : Handler) (s : Stream) (t : RuntimeTask)
    → find_task h t.task.id ≡ some (s.pointer, t)
    → get_elem? h.objects s.pointer ≡ some t
    → t.task.status.state ≡ working
    → is_yield s.place ≡ true
    → s.terminal ≡ false
    → is_hold s.request.kind ≡ false
    → let r = resume lib h s stop in
      (r.1 ≡ record s { place = finished })
      × (find_task r.0 t.task.id ≡ none)
      × ((id : String) → id ≢ t.task.id → find_task r.0 id ≡ find_task h id)
unfolding resume run_deferred
stop_frees_id lib h s t found at live yields quiet kind =
    rw (at, resume_at-stop lib h s t s.place yields)
      (rw (quiet, kind, removed_lem h t s.pointer found live)
        (
          refl,
          rw (find_task-removed h t.task.id t.task.id, eq_refl t.task.id) refl,
          λ id other. rw (find_task-removed h t.task.id id, text_ne (λ e. other (sym e))) refl,
        ))

-- A hold stream waits. When the owner cancels its working task, its next step sends the final event
-- of a canceled task, and the deferred clean-up then leaves the handler alone.
pub cancel_ends_hold :
    (lib : Library) (h : Handler) (s : Stream) (t : RuntimeTask) (claims : Option Claims)
    → IsSound lib h
    → t.task.id ≢ ""
    → find_task h t.task.id ≡ some (s.pointer, t)
    → get_elem? h.objects s.pointer ≡ some t
    → t.owner ≡ task_owner claims
    → t.task.status.state ≡ working
    → s.place ≡ holding
    → let k = (on_cancel_task lib h claims (some t.task.id)).0 in
      let r = resume lib k s continue in
      (resume lib h s continue ≡ (h, s))
      × (r.0 ≡ k)
      × (r.1.events ≡ s.events ++ final_event t canceled ∷ [])
      × (resume lib r.0 r.1 continue ≡ (k, record r.1 { place = finished }))
unfolding resume resume_at run_deferred status_update
cancel_ends_hold lib h s t claims v given found at own live waits =
    let there =
      cancel-object lib h claims t.task.id s.pointer t found at own live
        (on_cancel_task lib h claims (some t.task.id))
        (on_cancel_task-CancelCase lib h claims t.task.id v given) in
    (
      rw (at, waits, opened) refl,
      rw (there, waits) refl,
      rw (there, waits) refl,
      rw (there, waits) (rw there refl),
    )
  where
    opened : t.closed ≡ false
    opened =
        working-open t lib (All-get_elem? (IsSoundTask lib) h.objects s.pointer v.sound_tasks at)
          live
