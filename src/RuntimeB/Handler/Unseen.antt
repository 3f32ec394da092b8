-- ===== src/RuntimeB/Handler/Unseen.antt =====
-- What tasks/get and tasks/cancel of runtime-b/handler.go let a caller see of others' tasks.
use mathlib.Core.Path.{ap₂}
use ne_kiro_samples.Base.{
  ℕ, String, Bool, true, false, ◌≡◌, refl, sym, ap, subst, ◌∙◌, inl, inr, ◌==◌, if◌then◌else◌,
  Option, none, some, List, [], ◌∷◌, Outcome, err, panic, Bool-cases, text_cases, eq_iff,
  task_not_found, task_not_cancelable, or_fail,
}
use ne_kiro_samples.A2a.{Task, canceled}
use ne_kiro_samples.Platform.{Library, Claims}
use ne_kiro_samples.RuntimeB.Identity.{task_owner}
use ne_kiro_samples.RuntimeB.Clone.{clone_task}
use ne_kiro_samples.RuntimeB.Handler.{
  Handler, RuntimeTask, find_task, write, is_working, with_state, count_cancellation,
  close_canceled, cancel_found, on_cancel_task,
}
use ne_kiro_samples.RuntimeB.Handler.Get.{TaskQuery, owned_by, on_get_task}
use ne_kiro_samples.RuntimeB.Handler.Sound.{IsSound}
use ne_kiro_samples.RuntimeB.Handler.Preserve.{count_cancellation-IsSound, on_cancel_task-IsSound}
use ne_kiro_samples.RuntimeB.Registry.Shows.{find_task-write, count_cancellation-find_task}

-- The caller's part of a lookup: a task of another owner is not there, and where a task is stored
-- does not matter.
abbrev pub visible : Option Claims → Option (ℕ × RuntimeTask) → Option RuntimeTask
visible claims none = none
visible claims (some (p, t)) = if t.owner == task_owner claims then some t else none

-- Two handlers with the same tasks of this caller.
abbrev pub Alike : Option Claims → Handler → Handler → Type 0
Alike claims h k = (id : String) → visible claims (find_task h id) ≡ visible claims (find_task k id)

pub data Asked : Type 0 where
  gets : Option TaskQuery → Asked
  cancels : Option String → Asked

abbrev pub ask : Library → Option Claims → Handler → Asked → Handler × Outcome Task
ask lib claims h (gets query) = (h, on_get_task lib h claims query)
ask lib claims h (cancels id) = on_cancel_task lib h claims id

-- The replies to a caller's requests, one after another.
abbrev pub replies : Library → Option Claims → Handler → List Asked → List (Outcome Task)
replies lib claims h [] = []
replies lib claims h (a ∷ rest) = let r = ask lib claims h a in r.1 ∷ replies lib claims r.0 rest

abbrev closing : Library → RuntimeTask → RuntimeTask × Outcome Task
closing lib t =
    if t.closed
    then (t, panic "close of closed channel")
    else (record t { closed = true }, clone_task lib t.task)

abbrev canceling : Library → RuntimeTask → RuntimeTask × Outcome Task
canceling lib t =
    if is_working t.task.status.state
    then closing lib (with_state t canceled)
    else (t, err task_not_cancelable)

abbrev answer_of : Library → Option RuntimeTask → Outcome Task
answer_of lib none = err task_not_found
answer_of lib (some t) = (canceling lib t).1

abbrev seen_after : Library → Option RuntimeTask → Bool → Option RuntimeTask → Option RuntimeTask
seen_after lib none same there = there
seen_after lib (some t) same there = if same then some (canceling lib t).0 else there

closes :
    (lib : Library) (h : Handler) (p : ℕ) (t : RuntimeTask)
    → close_canceled lib h p t ≡ (write h p (closing lib t).0, (closing lib t).1)
unfolding close_canceled
closes lib h p t = go t.closed
  where
    go :
        (b : Bool)
        → ◌≡◌ {A = Handler × Outcome Task}
            (if b
              then (write h p t, panic "close of closed channel")
              else (write h p (record t { closed = true }), clone_task lib t.task))
            (let r : RuntimeTask × Outcome Task =
                if b
                then (t, panic "close of closed channel")
                else (record t { closed = true }, clone_task lib t.task) in
              (write h p r.0, r.1))
    go true = refl
    go false = refl

canceling_live :
    (lib : Library) (t : RuntimeTask)
    → is_working t.task.status.state ≡ true
    → canceling lib t ≡ closing lib (with_state t canceled)
canceling_live lib t live = rw live refl

canceling_ended :
    (lib : Library) (t : RuntimeTask)
    → is_working t.task.status.state ≡ false
    → canceling lib t ≡ (t, err task_not_cancelable)
canceling_ended lib t ended = rw ended refl

closing-owner :
    (lib : Library) (t : RuntimeTask) (P : String → Type 0) → P t.owner → P (closing lib t).0.owner
closing-owner lib t P given = go t.closed
  where
    go :
        (b : Bool)
        → P (
            let r : RuntimeTask × Outcome Task =
              if b
              then (t, panic "close of closed channel")
              else (record t { closed = true }, clone_task lib t.task) in
            r.0.owner)
    go true = given
    go false = given

module _ (lib : Library) (claims : Option Claims) (h : Handler) (v : IsSound lib h)
    (id : String) where
  -- What a cancellation of `id` answers and leaves, from what the caller sees under it.
  abbrev Effect : Handler × Outcome Task → Option RuntimeTask → Type 0
  Effect r seen =
      ((j : String)
        → visible claims (find_task r.0 j)
          ≡ seen_after lib seen (id == j) (visible claims (find_task h j)))
      × (r.1 ≡ answer_of lib seen)

  module _ (p : ℕ) (t : RuntimeTask) (found : find_task h id ≡ some (p, t))
      (own : (t.owner == task_owner claims) ≡ true) where
    counted-visible :
        (j : String)
        → visible claims (find_task (count_cancellation h t) j) ≡ visible claims (find_task h j)
    counted-visible j = ap (visible claims) (count_cancellation-find_task h t j)

    kept :
        (j : String)
        → visible claims (find_task (count_cancellation h t) j)
          ≡ (if id == j then some t else visible claims (find_task h j))
    kept j = elim (Bool-cases (id == j)) [
      | inr other ↦ rw other (counted-visible j)
      | inl same ↦ rw same (
          counted-visible j
          ∙ (ap (λ i. visible claims (find_task h i)) (sym ((eq_iff id j).0 same))
              ∙ (ap (visible claims) found ∙ rw own refl)))
    ]

    written :
        (new : RuntimeTask)
        → (new.owner == task_owner claims) ≡ true
        → (j : String)
        → visible claims (find_task (write (count_cancellation h t) p new) j)
          ≡ (if id == j then some new else visible claims (find_task h j))
    written new mine j =
        ap (visible claims) (
          find_task-write lib (count_cancellation h t) (count_cancellation-IsSound lib h t v) id p t
            new (count_cancellation-find_task h t id ∙ found) j)
        ∙ elim (Bool-cases (id == j)) [
          | inl same ↦ rw same (rw mine refl)
          | inr other ↦ rw other (counted-visible j)
        ]

    owned-Effect : Effect (cancel_found lib h claims (some (p, t))) (some t)
    unfolding cancel_found
    owned-Effect = rw own (elim (Bool-cases (is_working t.task.status.state)) [
      | inr ended ↦ rw ended (kept, sym (ap (λ r. r.1) (canceling_ended lib t ended)))
      | inl live ↦
          rw (live, closes lib (count_cancellation h t) p (with_state t canceled))
            (
              written (closing lib (with_state t canceled)).0 (
                  closing-owner lib (with_state t canceled) (λ o. (o == task_owner claims) ≡ true)
                    own),
              sym (ap (λ r. r.1) (canceling_live lib t live)),
            )
    ])

  cancel_found-Effect :
      (o : Option (ℕ × RuntimeTask))
      → find_task h id ≡ o
      → Effect (cancel_found lib h claims o) (visible claims o)
  unfolding cancel_found
  cancel_found-Effect none found = (λ j. refl, refl)
  cancel_found-Effect (some (p, t)) found = elim (Bool-cases (t.owner == task_owner claims)) [
    | inl own ↦
        let seen : some t ≡ visible claims (some (p, t)) = rw own refl in
        subst (Effect (cancel_found lib h claims (some (p, t)))) seen (owned-Effect p t found own)
    | inr foreign ↦ rw foreign (λ j. refl, refl)
  ]

owned_by-visible :
    (claims : Option Claims) (o : Option (ℕ × RuntimeTask))
    → owned_by claims o ≡ or_fail (visible claims o) task_not_found
owned_by-visible claims none = refl
owned_by-visible claims (some (p, t)) = elim (Bool-cases (t.owner == task_owner claims)) [
  | inl own ↦ rw own refl
  | inr foreign ↦ rw foreign refl
]

module _ (lib : Library) (claims : Option Claims) where
  gets-Alike :
      (h k : Handler) (query : Option TaskQuery)
      → Alike claims h k
      → on_get_task lib h claims query ≡ on_get_task lib k claims query
  unfolding on_get_task
  gets-Alike h k none alike = refl
  gets-Alike h k (some query) alike = rw same refl
    where
      same : owned_by claims (find_task h query.id) ≡ owned_by claims (find_task k query.id)
      same =
          owned_by-visible claims (find_task h query.id)
          ∙ (ap (λ o. or_fail o task_not_found) (alike query.id)
              ∙ sym (owned_by-visible claims (find_task k query.id)))

  cancels-Alike :
      (h k : Handler) (id : Option String)
      → IsSound lib h
      → IsSound lib k
      → Alike claims h k
      → Alike claims (on_cancel_task lib h claims id).0 (on_cancel_task lib k claims id).0
        × ((on_cancel_task lib h claims id).1 ≡ (on_cancel_task lib k claims id).1)
  unfolding on_cancel_task
  cancels-Alike h k none v w alike = (alike, refl)
  cancels-Alike h k (some id) v w alike = elim (text_cases id "") [
    | inl e ↦ rw e (alike, refl)
    | inr e ↦
        let (left, first) = cancel_found-Effect lib claims h v id (find_task h id) refl in
        let (right, second) = cancel_found-Effect lib claims k w id (find_task k id) refl in
        rw e (
          λ j.
              left j
              ∙ (ap₂ (λ o there. seen_after lib o (id == j) there) (alike id) (alike j)
                  ∙ sym (right j)),
          first ∙ (ap (answer_of lib) (alike id) ∙ sym second),
        )
  ]

  -- On two well-formed handlers with the same tasks of a caller, whatever tasks others have there, any
  -- requests of the caller to tasks/get and tasks/cancel, in any order, get the same replies.
  pub foreign_tasks_unseen :
      (h k : Handler) (rest : List Asked)
      → IsSound lib h
      → IsSound lib k
      → Alike claims h k
      → replies lib claims h rest ≡ replies lib claims k rest
  foreign_tasks_unseen h k [] v w alike = refl
  foreign_tasks_unseen h k (gets query ∷ rest) v w alike =
      ap₂ (λ x xs. x ∷ xs) (gets-Alike h k query alike) (foreign_tasks_unseen h k rest v w alike)
  foreign_tasks_unseen h k (cancels id ∷ rest) v w alike =
      let (later, same) = cancels-Alike h k id v w alike in
      ap₂ (λ x xs. x ∷ xs) same
        (foreign_tasks_unseen (on_cancel_task lib h claims id).0 (on_cancel_task lib k claims id).0
          rest (on_cancel_task-IsSound lib v claims id) (on_cancel_task-IsSound lib w claims id)
          later)
