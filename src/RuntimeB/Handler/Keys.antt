-- ===== src/RuntimeB/Handler/Keys.antt =====
-- Which keys of the task map each operation keeps; none of them renames the instance.
use ne_kiro_samples.Base.{
  ℕ, String, get_elem?, ◌≡◌, refl, ◌≢◌, ◌⊎◌, inl, inr, Option, none, some, ok, arith, Bool-cases,
  if◌then◌else◌, eq_iff, ◌==◌,
}
use ne_kiro_samples.Base.Dict.{lookup, lookup-remove}
use ne_kiro_samples.A2a.{working, completed, canceled}
use ne_kiro_samples.Platform.{Library, Claims}
use ne_kiro_samples.RuntimeB.Handler.{
  RuntimeTask, Handler, find_task, remove_working_task, remove_found, complete_task, complete_found,
  is_working, on_cancel_task, cancel_found, deref, write, with_state,
}

remove_found-lookup :
    (h : Handler) (k id : String) (o : Option (ℕ × RuntimeTask))
    → (lookup id (remove_found h k o).tasks ≡ lookup id h.tasks)
      ⊎ (lookup id (remove_found h k o).tasks ≡ (if k == id then none else lookup id h.tasks))
remove_found-lookup h k id none = inl refl
remove_found-lookup h k id (some (p, t)) = elim (Bool-cases (is_working t.task.status.state)) [
  | inl e ↦ inr (rw e (lookup-remove k id h.tasks))
  | inr e ↦ inl (rw e refl)
]

remove_found-keeps :
    (h : Handler) (k : String) (q : ℕ) (o : Option (ℕ × RuntimeTask))
    → lookup k h.tasks ≡ some q
    → (id : String) (p : ℕ) → lookup id h.tasks ≡ some p
    → p ≢ q
    → lookup id (remove_found h k o).tasks ≡ some p
remove_found-keeps h k q o key id p found other = elim (remove_found-lookup h k id o) [
  | inl same ↦ rw same found
  | inr split ↦ rw split (elim (Bool-cases (k == id)) [
    | inl e ↦ absurd (other (clash ((eq_iff k id).0 e)))
    | inr e ↦ rw e found
  ])
]
  where
    clash : k ≡ id → p ≡ q
    clash e = let here : lookup id h.tasks ≡ some q = rw (← e) key in cc

pub remove_working_task-keeps :
    (h : Handler) (k : String) (q : ℕ)
    → lookup k h.tasks ≡ some q
    → (id : String) (p : ℕ) → lookup id h.tasks ≡ some p
    → p ≢ q
    → lookup id (remove_working_task h k).tasks ≡ some p
unfolding remove_working_task
remove_working_task-keeps h k q key = remove_found-keeps h k q (find_task h k) key

remove_found-instance :
    (h : Handler) (k : String) (o : Option (ℕ × RuntimeTask))
    → (remove_found h k o).instance_id ≡ h.instance_id
remove_found-instance h k none = refl
remove_found-instance h k (some (p, t)) = ground arith

pub remove_working_task-instance :
    (h : Handler) (k : String) → (remove_working_task h k).instance_id ≡ h.instance_id
unfolding remove_working_task
remove_working_task-instance h k = remove_found-instance h k (find_task h k)

-- The parts of a handler that completing and canceling leave alone.
abbrev pub SameKeys : Handler → Handler → Type 0
SameKeys h k = (k.tasks ≡ h.tasks) × (k.instance_id ≡ h.instance_id)

complete_found-SameKeys :
    (h : Handler) (o : Option (ℕ × RuntimeTask)) → SameKeys h (complete_found h o).0
complete_found-SameKeys h none = (refl, refl)
complete_found-SameKeys h (some (p, t)) = ground arith

pub complete_task-SameKeys : (h : Handler) (id : String) → SameKeys h (complete_task h id).0
unfolding complete_task
complete_task-SameKeys h id = complete_found-SameKeys h (find_task h id)

cancel_found-SameKeys :
    (lib : Library) (h : Handler) (claims : Option Claims) (o : Option (ℕ × RuntimeTask))
    → SameKeys h (cancel_found lib h claims o).0
unfolding cancel_found
cancel_found-SameKeys lib h claims none = (refl, refl)
cancel_found-SameKeys lib h claims (some (p, t)) = ground arith

pub on_cancel_task-SameKeys :
    (lib : Library) (h : Handler) (claims : Option Claims) (id : Option String)
    → SameKeys h (on_cancel_task lib h claims id).0
unfolding on_cancel_task
on_cancel_task-SameKeys lib h claims none = (refl, refl)
on_cancel_task-SameKeys lib h claims (some id) =
    ground (arith, cancel_found-SameKeys lib h claims (find_task h id))

-- Completing a task that stands in the map: what it returns, and the task that it leaves.
pub complete_task-working :
    (h : Handler) (id : String) (p : ℕ) (t : RuntimeTask)
    → lookup id h.tasks ≡ some p
    → get_elem? h.objects p ≡ some t
    → t.task.status.state ≡ working
    → complete_task h id ≡ (write h p (with_state t completed), ok completed)
unfolding complete_task find_task
complete_task-working h id p t key at e = rw key (rw (at, deref) (rw (e, complete_found) refl))

pub complete_task-canceled :
    (h : Handler) (id : String) (p : ℕ) (t : RuntimeTask)
    → lookup id h.tasks ≡ some p
    → get_elem? h.objects p ≡ some t
    → t.task.status.state ≡ canceled
    → complete_task h id ≡ (h, ok canceled)
unfolding complete_task find_task
complete_task-canceled h id p t key at e = rw key (rw (at, deref) (rw (e, complete_found) refl))
