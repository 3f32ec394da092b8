-- ===== src/RuntimeB/Handler/Created.antt =====
-- The creation of a task: what it stores, and that its id cannot be used again.
use ne_kiro_samples.Base.{
  ℕ, ◌≡◌, refl, some, none, [], ◌∷◌, ◌++◌, length, get_elem?-append_new, eq_refl, ok, err,
  invalid_params,
}
use ne_kiro_samples.Base.Dict.{lookup, insert, lookup-insert}
use ne_kiro_samples.RuntimeB.Handler.{Handler, RuntimeTask, find_task, deref, store_task}

abbrev pub with_task : Handler → RuntimeTask → Handler
with_task h t = record h {
  objects = h.objects ++ t ∷ [];
  tasks = insert t.task.id (length h.objects) h.tasks;
}

with_task-lookup :
    (h : Handler) (t : RuntimeTask)
    → lookup t.task.id (with_task h t).tasks ≡ some (length h.objects)
with_task-lookup h t =
    rw (lookup-insert t.task.id t.task.id (length h.objects) h.tasks, eq_refl t.task.id) refl

pub with_task-find_task :
    (h : Handler) (t : RuntimeTask)
    → find_task (with_task h t) t.task.id ≡ some (length h.objects, t)
unfolding find_task
with_task-find_task h t =
    rw (with_task-lookup h t, deref) (rw (get_elem?-append_new h.objects t) refl)

pub store_task-free :
    (h : Handler) (t : RuntimeTask)
    → lookup t.task.id h.tasks ≡ none
    → store_task h t ≡ (with_task h t, ok (length h.objects))
unfolding store_task
store_task-free h t free = rw (free, store_task) refl

pub store_task-used :
    (h : Handler) (t : RuntimeTask) {p : ℕ}
    → lookup t.task.id h.tasks ≡ some p
    → store_task h t ≡ (h, err (invalid_params "messageId already identifies a runtime task"))
unfolding store_task
store_task-used h t used = rw (used, store_task) refl
