-- ===== src/RuntimeB/Stream/Resumed.antt =====
-- What a step of an iterator leaves behind, and the ways to make one.
use ne_kiro_samples.Base.{
  ℕ, String, true, false, ◌≡◌, refl, ◌≢◌, inl, inr, some, get_elem?, not, ◌&&◌, arith, Bool-cases,
}
use ne_kiro_samples.Base.Dict.{lookup}
use ne_kiro_samples.A2a.{TaskState, completed}
use ne_kiro_samples.Platform.{Library}
use ne_kiro_samples.RuntimeB.Handler.{RuntimeTask, Handler, remove_working_task}
use ne_kiro_samples.RuntimeB.Handler.Sound.{IsSound}
use ne_kiro_samples.RuntimeB.Handler.Preserve.{remove_working_task-IsSound}
use ne_kiro_samples.RuntimeB.Handler.Lifecycle.{
  Continues-refl, Evolves-refl, remove_working_task-objects,
}
use ne_kiro_samples.RuntimeB.Handler.Keys.{remove_working_task-keeps, remove_working_task-instance}
use ne_kiro_samples.RuntimeB.Stream.{
  StreamEvent, Stream, Place, finished, is_hold, is_streamed, run_deferred, emit, emit_final,
}
use ne_kiro_samples.RuntimeB.Stream.Script.{Closed, Fits, StreamFits, Later, Fits-Continues}

-- A step of a stream: its task evolves, its place fits, and the other keys of the map are kept.
pub record Resumed (lib : Library) (h : Handler) (s : Stream) (r : Handler × Stream) : Type 0 where
  pub same_pointer : r.1.pointer ≡ s.pointer
  pub later : Later h r.0
  pub sound : IsSound lib r.0
  pub fits : StreamFits lib r.0 r.1
  pub others : (p : ℕ) → p ≢ s.pointer → get_elem? r.0.objects p ≡ get_elem? h.objects p
  pub keeps :
      (id : String) (p : ℕ)
      → lookup id h.tasks ≡ some p
      → p ≢ s.pointer
      → lookup id r.0.tasks ≡ some p

module _ (lib : Library) (h : Handler) (s : Stream) (v : IsSound lib h) where
  Later-refl : Later h h
  Later-refl = record { evolves = Evolves-refl h.objects; same_instance = refl }

  -- A step that leaves the handler alone.
  pub unchanged :
      (s' : Stream) → s'.pointer ≡ s.pointer → StreamFits lib h s' → Resumed lib h s (h, s')
  unchanged s' same f = record {
    same_pointer = same;
    later = Later-refl;
    sound = v;
    fits = f;
    others = λ p other. refl;
    keeps = λ id p found other. found;
  }

  module _ (t : RuntimeTask) (at : get_elem? h.objects s.pointer ≡ some t)
      (streamed : is_streamed s.request.kind ≡ true) where
    finished-Fits :
        (k : Handler)
        → get_elem? k.objects s.pointer ≡ some t
        → Fits lib k (record s { place = finished }) t finished s.terminal
        → StreamFits lib k (record s { place = finished })
    finished-Fits k at' f = record {
      object = t;
      at = at';
      streamed = streamed;
      fits = f;
      owns = λ live. cc;
      open_ended = λ live. cc;
    }

    removed-Resumed :
        lookup t.task.id h.tasks ≡ some s.pointer
        → Fits lib h (record s { place = finished }) t finished s.terminal
        → Resumed lib h s (remove_working_task h t.task.id, record s { place = finished })
    removed-Resumed key f = record {
      same_pointer = refl;
      later = record {
        evolves = rw (remove_working_task-objects h t.task.id) (Evolves-refl h.objects);
        same_instance = remove_working_task-instance h t.task.id;
      };
      sound = remove_working_task-IsSound lib v t.task.id;
      fits =
          finished-Fits (remove_working_task h t.task.id)
            (rw (remove_working_task-objects h t.task.id) at)
            (Fits-Continues lib h (remove_working_task h t.task.id) (record s { place = finished })
              (remove_working_task-instance h t.task.id) (Continues-refl t) finished s.terminal f);
      others = λ p other. rw (remove_working_task-objects h t.task.id) refl;
      keeps = remove_working_task-keeps h t.task.id s.pointer key;
    }

    -- The clean-up of a stream that has sent its last event, or gives up.
    pub deferred-Resumed :
        (s.terminal ≡ false → lookup t.task.id h.tasks ≡ some s.pointer)
        → Fits lib h (record s { place = finished }) t finished s.terminal
        → Resumed lib h s (run_deferred h s t.task.id)
    unfolding run_deferred
    deferred-Resumed key f = elim (Bool-cases (not s.terminal && not (is_hold s.request.kind))) [
      | inl test ↦ rw test (removed-Resumed (key (ground arith)) f)
      | inr test ↦ rw test (unchanged (record s { place = finished }) refl (finished-Fits h at f))
    ]

    -- Sending a further event of the script.
    pub emit-Resumed :
        (e : StreamEvent) (place : Place)
        → Fits lib h (emit s e place) t place s.terminal
        → lookup t.task.id h.tasks ≡ some s.pointer
        → t.task.status.state ≢ completed
        → Resumed lib h s (h, emit s e place)
    emit-Resumed e place f key open_ended = unchanged (emit s e place) refl (record {
      object = t;
      at = at;
      streamed = streamed;
      fits = f;
      owns = λ live. key;
      open_ended = λ live. open_ended;
    })

    -- Sending the final event.
    pub final-Resumed :
        (state : TaskState)
        → Closed lib h (emit_final s t.task state) t
        → Resumed lib h s (h, emit_final s t.task state)
    final-Resumed state c = unchanged (emit_final s t.task state) refl (record {
      object = t;
      at = at;
      streamed = streamed;
      fits = c;
      owns = λ live. cc;
      open_ended = λ live. cc;
    })
