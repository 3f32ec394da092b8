-- ===== src/RuntimeB/Registry/Shows.antt =====
-- When a handler shows a table, and what the writes of its operations do to both.
use ne_kiro_samples.Base.{
  ℕ, String, Bool, true, false, ◌+◌, ◌≡◌, ◌≢◌, refl, sym, ap, ◌∙◌, subst, inl, inr, ◌==◌,
  if◌then◌else◌, Option, none, some, List, [], ◌∷◌, ◌++◌, length, get_elem?, set,
  get_elem?-set_self, get_elem?-set_ne, get_elem?-append_old, Outcome, arith, eq_iff, Bool-cases,
}
use mathlib.Core.Path.{ap₂}
use ne_kiro_samples.Base.Dict.{lookup, insert, remove, lookup-insert, lookup-remove}
use ne_kiro_samples.Platform.{Library}
use ne_kiro_samples.RuntimeB.Handler.{
  RuntimeTask, Handler, find_task, deref, write, count_of, count_cancellation,
}
use ne_kiro_samples.RuntimeB.Handler.Sound.{
  IsSoundTask, IsSound, find_task-IsSound, write-IsSound, append-IsSound, remove-IsSound, Names,
}
use ne_kiro_samples.RuntimeB.Handler.Created.{with_task, with_task-find_task}
use ne_kiro_samples.RuntimeB.Registry.{Seen, Entry, Table, put, mark}

abbrev pub entry : RuntimeTask → Entry
entry t = record { owner = t.owner; marker = t.cancel_observation; phase = t.task.status.state }

abbrev pub entry_of : Option (ℕ × RuntimeTask) → Option Entry
entry_of none = none
entry_of (some (p, t)) = some (entry t)

-- The handler is well formed, and shows the table's tasks and counts.
pub record Implements (lib : Library) (h : Handler) (r : Table) : Type 0 where
  pub sound : IsSound lib h
  pub tasks : (id : String) → entry_of (find_task h id) ≡ r.tasks id
  pub counts : (key : String) → count_of key h.cancellations ≡ r.counts key

abbrev pub Agrees : Library → Handler × Outcome Seen → Table × Outcome Seen → Type 0
Agrees lib (h, o) (r, e) = Implements lib h r × (o ≡ e)

count_of-insert_any :
    (k j : String) (n : ℕ) (m : List (String × ℕ))
    → count_of j (insert k n m) ≡ (if k == j then n else count_of j m)
count_of-insert_any k j n m = ground (arith, lookup-insert k j n m)

pub count_of-remove_any :
    (k j : String) (m : List (String × ℕ))
    → count_of j (remove k m) ≡ (if k == j then 0 else count_of j m)
count_of-remove_any k j m = ground (arith, lookup-remove k j m)

pub count_cancellation-find_task :
    (h : Handler) (t : RuntimeTask) (id : String)
    → find_task (count_cancellation h t) id ≡ find_task h id
unfolding count_cancellation find_task
count_cancellation-find_task h t id = elim (Bool-cases (t.cancel_observation == "")) [
  | inl e ↦ rw e refl
  | inr e ↦ rw e refl
]

module _ (lib : Library) (h : Handler) (v : IsSound lib h) where
  pub find_task-write :
      (id : String) (p : ℕ) (old new : RuntimeTask)
      → find_task h id ≡ some (p, old)
      → (j : String)
      → find_task (write h p new) j ≡ (if id == j then some (p, new) else find_task h j)
  unfolding find_task
  find_task-write id p old new found j = elim (Bool-cases (id == j)) [
    | inl same ↦
        rw (same, ← (eq_iff id j).0 same)
          (let (key, at, named, kept) = find_task-IsSound lib h id v found in
            rw (key, deref) (rw (get_elem?-set_self h.objects p new at) refl))
    | inr other ↦ rw other (elsewhere other (lookup j h.tasks) refl)
  ]
    where
      apart :
          (q : ℕ) (t : RuntimeTask)
          → (id == j) ≡ false
          → get_elem? h.objects q ≡ some t
          → t.task.id ≡ j
          → p ≢ q
      apart q t other at named here =
          let (key, old_at, old_named, kept) = find_task-IsSound lib h id v found in
          let one : old ≡ t = cc in
          let same : id ≡ j = sym old_named ∙ (ap (λ u. u.task.id) one ∙ named) in
          ground (arith, eq_iff id j)

      elsewhere :
          (id == j) ≡ false
          → (o : Option ℕ) → lookup j h.tasks ≡ o
          → deref (set h.objects p new) o ≡ deref h.objects o
      elsewhere other none e = refl
      elsewhere other (some q) e =
          let (t, at, named) = subst (Names h.objects j) e (v.named j) in
          rw (deref, get_elem?-set_ne h.objects new (apart q t other at named)) refl

pub entry_of-if :
    (b : Bool) (x y : Option (ℕ × RuntimeTask))
    → entry_of (if b then x else y) ≡ (if b then entry_of x else entry_of y)
entry_of-if true x y = refl
entry_of-if false x y = refl

module _ (lib : Library) (h : Handler) (r : Table) (i : Implements lib h r) where
  pub held :
      (id : String) {p : ℕ} {t : RuntimeTask}
      → find_task h id ≡ some (p, t)
      → r.tasks id ≡ some (entry t)
  held id found = sym (i.tasks id) ∙ ap entry_of found

  pub missing : (id : String) → find_task h id ≡ none → r.tasks id ≡ none
  missing id found = sym (i.tasks id) ∙ ap entry_of found

  pub put-Implements :
      (id : String) (p : ℕ) (old new : RuntimeTask)
      → find_task h id ≡ some (p, old)
      → new.task.id ≡ old.task.id
      → IsSoundTask lib new
      → Implements lib (write h p new) (put r id (some (entry new)))
  put-Implements id p old new found same kept =
      let (key, at, named, old_kept) = find_task-IsSound lib h id i.sound found in
      record {
        sound = write-IsSound lib h p old new i.sound at same kept;
        tasks = λ j.
            ap entry_of (find_task-write lib h i.sound id p old new found j)
            ∙ (entry_of-if (id == j) (some (p, new)) (find_task h j)
                ∙ ap (λ e. if id == j then some (entry new) else e) (i.tasks j));
        counts = i.counts;
      }

  pub mark-Implements :
      (t : RuntimeTask) → Implements lib (count_cancellation h t) (mark r t.cancel_observation)
  unfolding count_cancellation find_task
  mark-Implements t = elim (Bool-cases (t.cancel_observation == "")) [
    | inl none_marked ↦ rw none_marked i
    | inr marked ↦ rw marked (record {
      sound = record { sound_tasks = i.sound.sound_tasks; named = i.sound.named };
      tasks = i.tasks;
      counts = λ j.
          count_of-insert_any t.cancel_observation j
            (count_of t.cancel_observation h.cancellations + 1) h.cancellations
          ∙ ap₂ (λ n m. if t.cancel_observation == j then n + 1 else m)
              (i.counts t.cancel_observation) (i.counts j);
    })
  ]

  find_task-forget :
      (id j : String)
      → find_task (record h { tasks = remove id h.tasks }) j
        ≡ (if id == j then none else find_task h j)
  unfolding find_task
  find_task-forget id j = elim (Bool-cases (id == j)) [
    | inl same ↦ rw (lookup-remove id j h.tasks, same) refl
    | inr other ↦ rw (lookup-remove id j h.tasks, other) refl
  ]

  pub forget-Implements :
      (id : String) → Implements lib (record h { tasks = remove id h.tasks }) (put r id none)
  forget-Implements id = record {
    sound = remove-IsSound lib h id i.sound;
    tasks = λ j.
        ap entry_of (find_task-forget id j)
        ∙ (entry_of-if (id == j) none (find_task h j)
            ∙ ap (λ e. if id == j then none else e) (i.tasks j));
    counts = i.counts;
  }

  pub find_task-free : (id : String) → lookup id h.tasks ≡ none → find_task h id ≡ none
  unfolding find_task
  find_task-free id free = rw free refl

  pub find_task-used :
      (id : String) (p : ℕ)
      → lookup id h.tasks ≡ some p
      → (t : RuntimeTask) × (find_task h id ≡ some (p, t))
  unfolding find_task
  find_task-used id p used =
      let (t, at, named) = subst (Names h.objects id) used (i.sound.named id) in
      (t, rw (used, deref) (rw at refl))

  find_task-append :
      (t : RuntimeTask) (j : String)
      → find_task (with_task h t) j
        ≡ (if t.task.id == j then some (length h.objects, t) else find_task h j)
  unfolding find_task
  find_task-append t j = elim (Bool-cases (t.task.id == j)) [
    | inl same ↦ rw (same, ← (eq_iff t.task.id j).0 same) (with_task-find_task h t)
    | inr other ↦
        rw (other, lookup-insert t.task.id j (length h.objects) h.tasks, other)
          (elsewhere (lookup j h.tasks) (i.sound.named j))
  ]
    where
      elsewhere :
          (o : Option ℕ) → Names h.objects j o → deref (h.objects ++ t ∷ []) o ≡ deref h.objects o
      elsewhere none named = refl
      elsewhere (some q) (u, at, named) =
          rw (deref, get_elem?-append_old h.objects (t ∷ []) q at, at) refl

  pub append-Implements :
      (t : RuntimeTask)
      → IsSoundTask lib t
      → Implements lib (with_task h t) (put r t.task.id (some (entry t)))
  append-Implements t kept = record {
    sound = append-IsSound lib h t i.sound kept;
    tasks = λ j.
        ap entry_of (find_task-append t j)
        ∙ (entry_of-if (t.task.id == j) (some (length h.objects, t)) (find_task h j)
            ∙ ap (λ e. if t.task.id == j then some (entry t) else e) (i.tasks j));
    counts = i.counts;
  }
