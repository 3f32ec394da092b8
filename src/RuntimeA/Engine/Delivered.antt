-- ===== src/RuntimeA/Engine/Delivered.antt =====
-- What the runner delivers: the agent's own contents, and what the loop makes of them.
use ne_kiro_samples.Base.{
  String, ◌≡◌, ◌⊎◌, inl, inr, sym, ◌∙◌, subst, ◌==◌, Option, none, some, List, [], ◌∷◌, All,
  All-append, ok, Bool-cases,
}
use ne_kiro_samples.Platform.{PlatformContext}
use ne_kiro_samples.RuntimeA.Engine.{Event, Response, Agent, Framework, read_events}
use ne_kiro_samples.RuntimeA.Engine.Reference.{
  texts, seen, first_error, all_contents, last_filled, verdict, read_events-eq-reference,
}

-- A text is one of some contents, or of those of some events.
abbrev pub In : String → List String → Type 0
In c [] = ⊥
In c (x ∷ xs) = (c ≡ x) ⊎ In c xs

abbrev pub Said : String → List Event → Type 0
Said c [] = ⊥
Said c (e ∷ events) = In c (texts e.choices) ⊎ Said c events

abbrev pub EmptyOr : List Event → String → Type 0
EmptyOr sent c = (c ≡ "") ⊎ Said c sent

abbrev pub OnlySaid : (String → Type 0) → Option Event → Type 0
OnlySaid Q none = Unit
OnlySaid Q (some e) = All Q (texts e.choices)

-- What the samples rely on of the framework: a runner that delivers events has run the agent in the
-- context and with the text that it was given, and its events hold no content but the agent's, and none
-- if the agent failed; a response event has the contents of its response.
pub record Faithful (framework : Framework) : Type 0 where
  pub delivers :
      (name : String) (agent : Agent) (context : PlatformContext) (user_id session text : String)
      (events : List (Option Event))
      → framework.run name agent context user_id session text ≡ ok events
      → (id : String) × (sent : List Event) × ((agent
              (some context)
              (some (record { id = id; content = text }))
            ≡ ok sent)
          ⊎ (sent ≡ []))
        × All (OnlySaid (EmptyOr sent)) events
  pub responds :
      (id author : String) (r : Response)
      → (framework.response_event id author r).choices ≡ some r.contents

module _ (Q : String → Type 0) where
  last_filled-from : (xs : List String) → Q "" → All Q xs → Q (last_filled xs)
  unfolding last_filled
  last_filled-from [] empty all = empty
  last_filled-from (x ∷ xs) empty (q, all) = elim (Bool-cases (last_filled xs == "")) [
    | inl last ↦ rw last q
    | inr more ↦ rw more (last_filled-from xs empty all)
  ]

  seen-contents :
      (events : List (Option Event)) → All (OnlySaid Q) events → All Q (all_contents (seen events))
  unfolding seen all_contents
  seen-contents [] all = tt
  seen-contents (none ∷ events) (q, all) = seen-contents events all
  seen-contents (some e ∷ events) (q, all) = elim (Bool-cases e.completion) [
    | inl last ↦ simp last (All-append Q (texts e.choices) [] q tt)
    | inr more ↦
        simp more
          (All-append Q (texts e.choices) (all_contents (seen events)) q (seen-contents events all))
  ]

verdict-eq-ok : (o : Option Event) {content c : String} → verdict o content ≡ ok c → content ≡ c
verdict-eq-ok none e = cc
verdict-eq-ok (some failed) e = cc

-- What the loop returns is empty or one of the contents of its events.
pub read_events-from :
    (Q : String → Type 0) (events : List (Option Event)) {c : String}
    → Q ""
    → All (OnlySaid Q) events
    → read_events "" events ≡ ok c
    → Q c
read_events-from Q events empty all e =
    subst Q (verdict-eq-ok (first_error (seen events)) (sym (read_events-eq-reference events) ∙ e))
      (last_filled-from Q (all_contents (seen events)) empty (seen-contents Q events all))
