-- ===== src/RuntimeB/Handler/Sound.antt =====
-- Well-formed handlers: what holds of the tasks and of the map between two operations.
use ne_kiro_samples.Base.{
  ℕ, String, Bool, true, false, ◌≡◌, inl, inr, Option, none, some, List, [], ◌∷◌, ◌++◌, ◌==◌,
  if◌then◌else◌, get_elem?, set, length, All, All-set, All-append, All-get_elem?, ok, arith,
  Option-cases, Bool-cases, eq_iff,
}
use ne_kiro_samples.Base.{
  get_elem?-set_self, get_elem?-set_ne, get_elem?-append_old, get_elem?-append_new,
}
use ne_kiro_samples.Base.Dict.{lookup, insert, remove, lookup-insert, lookup-remove}
use native.Mathlib.Decide.{ℕ_discrete}
use ne_kiro_samples.A2a.{TaskState, working, completed, canceled, other_state}
use ne_kiro_samples.Platform.{Library}
use ne_kiro_samples.RuntimeB.Clone.{
  clone_each, clone_message, clone_task, clone_json_map, clone_task_status,
}
use ne_kiro_samples.RuntimeB.Handler.{RuntimeTask, Handler, find_task, write, deref}

-- A task waits, has ended, or was canceled; its cancel channel is closed in the last case only.
abbrev pub PhaseFits : TaskState → Bool → Type 0
PhaseFits working closed = closed ≡ false
PhaseFits completed closed = closed ≡ false
PhaseFits canceled closed = closed ≡ true
PhaseFits (other_state s) closed = ⊥

pub record IsSoundTask (lib : Library) (t : RuntimeTask) : Type 0 where
  pub phase : PhaseFits t.task.status.state t.closed
  pub no_status_message : t.task.status.message ≡ none
  pub no_timestamp : t.task.status.timestamp ≡ none
  pub no_metadata : t.task.metadata ≡ none
  pub no_artifacts : t.task.artifacts ≡ none
  pub history_copies : clone_each (clone_message lib) t.task.history ≡ ok t.task.history

-- An entry of the map names a task with its key for id.
abbrev pub Names : List RuntimeTask → String → Option ℕ → Type 0
Names objects id none = Unit
Names objects id (some p) = (t : RuntimeTask) × (get_elem? objects p ≡ some t) × (t.task.id ≡ id)

pub record IsSound (lib : Library) (h : Handler) : Type 0 where
  pub sound_tasks : All (IsSoundTask lib) h.objects
  pub named : (id : String) → Names h.objects id (lookup id h.tasks)

-- A sound task is copied without a panic, and the copy is equal to it.
pub clone_task_lem :
    (lib : Library) (t : RuntimeTask) → IsSoundTask lib t → clone_task lib t.task ≡ ok t.task
unfolding clone_task clone_json_map clone_task_status
clone_task_lem lib t v = ground arith

pub deref-eq-some :
    (xs : List RuntimeTask) (o : Option ℕ) {p : ℕ} {t : RuntimeTask}
    → deref xs o ≡ some (p, t)
    → (o ≡ some p) × (get_elem? xs p ≡ some t)
deref-eq-some xs none e = cc
deref-eq-some xs (some q) e = elim (Option-cases (get_elem? xs q)) [
  | inl missing ↦ ground arith
  | inr (u, found) ↦ ground arith
]

Names-id :
    (xs : List RuntimeTask) (id : String) (p : ℕ) {t : RuntimeTask}
    → Names xs id (some p)
    → get_elem? xs p ≡ some t
    → t.task.id ≡ id
Names-id xs id p (u, found, eq) at = ground arith

-- What a lookup in a sound handler finds.
pub find_task-IsSound :
    (lib : Library) (h : Handler) (id : String) {p : ℕ} {t : RuntimeTask}
    → IsSound lib h
    → find_task h id ≡ some (p, t)
    → (lookup id h.tasks ≡ some p)
      × (get_elem? h.objects p ≡ some t)
      × (t.task.id ≡ id)
      × IsSoundTask lib t
unfolding find_task
find_task-IsSound lib h id {p} {t} v e =
    let (key, at) = deref-eq-some h.objects (lookup id h.tasks) e in
    let same = Names-id h.objects id p (rw key at (v.named id)) at in
    (key, at, same, All-get_elem? (IsSoundTask lib) h.objects p v.sound_tasks at)

-- Writing over a task one with the same id keeps the map right.
Names-write :
    (xs : List RuntimeTask) (p : ℕ) (old new : RuntimeTask) (id : String) (q : Option ℕ)
    → get_elem? xs p ≡ some old
    → new.task.id ≡ old.task.id
    → Names xs id q
    → Names (set xs p new) id q
Names-write xs p old new id none e same n = tt
Names-write xs p old new id (some q) e same (t, at, eq) = elim (ℕ_discrete p q) [
  | yes here ↦ (new, rw (← here) (get_elem?-set_self xs p new e), ground arith)
  | no other ↦ (t, rw (get_elem?-set_ne xs new other) at, eq)
]

pub write-IsSound :
    (lib : Library) (h : Handler) (p : ℕ) (old new : RuntimeTask)
    → IsSound lib h
    → get_elem? h.objects p ≡ some old
    → new.task.id ≡ old.task.id
    → IsSoundTask lib new
    → IsSound lib (write h p new)
write-IsSound lib h p old new v e same sound = record {
  sound_tasks = All-set (IsSoundTask lib) h.objects p new v.sound_tasks sound;
  named = λ id. Names-write h.objects p old new id (lookup id h.tasks) e same (v.named id);
}

Names-append :
    (xs : List RuntimeTask) (new : RuntimeTask) (id : String) (q : Option ℕ)
    → Names xs id q
    → Names (xs ++ new ∷ []) id q
Names-append xs new id none n = tt
Names-append xs new id (some q) (t, at, eq) = (t, get_elem?-append_old xs (new ∷ []) q at, eq)

-- Adding a task under its own id.
pub append-IsSound :
    (lib : Library) (h : Handler) (new : RuntimeTask)
    → IsSound lib h
    → IsSoundTask lib new
    → IsSound lib (record h {
      objects = h.objects ++ new ∷ [];
      tasks = insert new.task.id (length h.objects) h.tasks;
    })
append-IsSound lib h new v sound = record {
  sound_tasks = All-append (IsSoundTask lib) h.objects (new ∷ []) v.sound_tasks (sound, tt);
  named = λ id. rw (lookup-insert new.task.id id (length h.objects) h.tasks) (split id);
}
  where
    split :
        (id : String)
        → Names
            (h.objects ++ new ∷ [])
            id
            (if new.task.id == id then some (length h.objects) else lookup id h.tasks)
    split id = elim (Bool-cases (new.task.id == id)) [
      | inl same ↦ rw same (new, get_elem?-append_new h.objects new, (eq_iff new.task.id id).0 same)
      | inr other ↦ rw other (Names-append h.objects new id (lookup id h.tasks) (v.named id))
    ]

-- Forgetting an id.
pub remove-IsSound :
    (lib : Library) (h : Handler) (k : String)
    → IsSound lib h
    → IsSound lib (record h { tasks = remove k h.tasks })
remove-IsSound lib h k v = record {
  sound_tasks = v.sound_tasks;
  named = λ id. rw (lookup-remove k id h.tasks) (split id);
}
  where
    split : (id : String) → Names h.objects id (if k == id then none else lookup id h.tasks)
    split id = elim (Bool-cases (k == id)) [
      | inl same ↦ rw same tt
      | inr other ↦ rw other (v.named id)
    ]
