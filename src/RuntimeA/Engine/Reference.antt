-- ===== src/RuntimeA/Engine/Reference.antt =====
-- The loop over the runner's events against a description of its result.
use ne_kiro_samples.Base.{
  String, true, false, ◌≡◌, ◌⊎◌, refl, sym, ap, ◌∙◌, ◌==◌, if◌then◌else◌, Option, none, some, List,
  [], ◌∷◌, ◌++◌, Outcome, ok, err, arith, eq_iff, Bool-cases, inl, inr,
}
use mathlib.Core.Path.{ap₂}
use ne_kiro_samples.RuntimeA.Engine.{Event, last_content, response_content, terminal, read_events}

-- The events that are there, up to the first completion.
unfoldable pub seen : List (Option Event) → List Event
seen [] = []
seen (none ∷ events) = seen events
seen (some e ∷ events) = let rest = seen events in if e.completion then e ∷ [] else e ∷ rest

unfoldable pub first_error : List Event → Option Event
first_error [] = none
first_error (e ∷ events) =
    let rest = first_error events in if e.terminal_error then some e else rest

abbrev pub texts : Option (List String) → List String
texts none = []
texts (some choices) = choices

unfoldable pub all_contents : List Event → List String
all_contents [] = []
all_contents (e ∷ events) = texts e.choices ++ all_contents events

-- The last text that is not empty, found from the end.
unfoldable pub last_filled : List String → String
last_filled [] = ""
last_filled (c ∷ cs) = let rest = last_filled cs in if rest == "" then c else rest

-- The first terminal error among the seen events, or else the last content that is not empty.
abbrev pub verdict : Option Event → String → Outcome String
verdict (some e) content = err (terminal e.error)
verdict none content = ok content

abbrev pub reference : List (Option Event) → Outcome String
reference events = verdict (first_error (seen events)) (last_filled (all_contents (seen events)))

abbrev or_else : String → String → String
or_else content last = if last == "" then content else last

last_content_lem :
    (content : String) (cs : List String)
    → last_content content cs ≡ or_else content (last_filled cs)
unfolding last_content last_filled
last_content_lem content [] = refl
last_content_lem content (c ∷ cs) = ground (
  arith,
  last_content_lem (if c == "" then content else c) cs,
  eq_iff c "",
  eq_iff (last_filled cs) "",
)

last_filled-append :
    (xs ys : List String) → last_filled (xs ++ ys) ≡ or_else (last_filled xs) (last_filled ys)
unfolding last_filled
last_filled-append [] ys = ground (arith, eq_iff (last_filled ys) "")
last_filled-append (x ∷ xs) ys =
    ground (arith, last_filled-append xs ys, eq_iff (last_filled xs) "", eq_iff (last_filled ys) "")

response_content_lem :
    (content : String) (choices : Option (List String))
    → response_content content choices ≡ or_else content (last_filled (texts choices))
unfolding last_filled
response_content_lem content none = refl
response_content_lem content (some choices) = last_content_lem content choices

-- The result from the content so far and the events that will be seen.
judged : String → List Event → Outcome String
judged content events =
    verdict (first_error events) (or_else content (last_filled (all_contents events)))

or_else_assoc : (a b c : String) → or_else (or_else a b) c ≡ or_else a (or_else b c)
or_else_assoc a b c = ground (arith, eq_iff b "", eq_iff c "")

content-cons :
    (content : String) (e : Event) (events : List Event)
    → or_else content (last_filled (all_contents (e ∷ events)))
      ≡ or_else (response_content content e.choices) (last_filled (all_contents events))
unfolding all_contents
content-cons content e events =
    ap (or_else content) (last_filled-append (texts e.choices) (all_contents events))
    ∙ (sym (
          or_else_assoc content (last_filled (texts e.choices)) (last_filled (all_contents events)))
        ∙ ap (λ c. or_else c (last_filled (all_contents events)))
            (sym (response_content_lem content e.choices)))

first_error-calm :
    (e : Event) (events : List Event)
    → e.terminal_error ≡ false
    → first_error (e ∷ events) ≡ first_error events
unfolding first_error
first_error-calm e events calm = ap (λ b. if b then some e else first_error events) calm

first_error-fails :
    (e : Event) (events : List Event) → e.terminal_error ≡ true → first_error (e ∷ events) ≡ some e
unfolding first_error
first_error-fails e events fails = ap (λ b. if b then some e else first_error events) fails

judged-cons :
    (content : String) (e : Event) (events : List Event)
    → e.terminal_error ≡ false
    → judged content (e ∷ events) ≡ judged (response_content content e.choices) events
unfolding judged
judged-cons content e events calm =
    ap₂ verdict (first_error-calm e events calm) (content-cons content e events)

judged-nil : (content : String) → judged content [] ≡ ok content
unfolding judged first_error all_contents last_filled
judged-nil content = refl

judged-error :
    (content : String) (e : Event) (events : List Event)
    → e.terminal_error ≡ true
    → judged content (e ∷ events) ≡ err (terminal e.error)
unfolding judged
judged-error content e events fails =
    ap (λ o. verdict o (or_else content (last_filled (all_contents (e ∷ events)))))
      (first_error-fails e events fails)

read_events-judged :
    (content : String) (events : List (Option Event))
    → read_events content events ≡ judged content (seen events)
unfolding read_events seen
read_events-judged content [] = sym (judged-nil content)
read_events-judged content (none ∷ events) = read_events-judged content events
read_events-judged content (some e ∷ events) = elim (Bool-cases e.terminal_error) [
  | inl fails ↦ elim (Bool-cases e.completion) [
    | inl last ↦ simp (fails, last) (sym (judged-error content e [] fails))
    | inr more ↦ simp (fails, more) (sym (judged-error content e (seen events) fails))
  ]
  | inr calm ↦ elim (Bool-cases e.completion) [
    | inl last ↦
        simp (calm, last)
          (sym (judged-cons content e [] calm ∙ judged-nil (response_content content e.choices)))
    | inr more ↦
        simp (calm, more)
          (read_events-judged (response_content content e.choices) events
            ∙ sym (judged-cons content e (seen events) calm))
  ]
]

-- The loop returns what the reference says: the error of the first terminal error among the events up
-- to the first completion, or else the last content among them that is not empty.
pub read_events-eq-reference :
    (events : List (Option Event)) → read_events "" events ≡ reference events
unfolding judged
read_events-eq-reference events =
    read_events-judged "" events
    ∙ ap (verdict (first_error (seen events)))
        (empty_first (last_filled (all_contents (seen events))))
  where
    empty_first : (s : String) → or_else "" s ≡ s
    empty_first s = ground (arith, eq_iff s "")

-- The loop ends at the first completion or terminal error, whatever the runner's channel holds after
-- it: what follows changes nothing.
pub read_events_stop :
    (content : String) (before : List (Option Event)) (e : Event)
    (after other : List (Option Event))
    → (e.completion ≡ true) ⊎ (e.terminal_error ≡ true)
    → read_events content (before ++ some e ∷ after)
      ≡ read_events content (before ++ some e ∷ other)
unfolding read_events
read_events_stop content [] e after other (inl last) = simp last refl
read_events_stop content [] e after other (inr fails) = simp fails refl
read_events_stop content (none ∷ before) e after other ends =
    read_events_stop content before e after other ends
read_events_stop content (some b ∷ before) e after other ends =
    ap
      (λ rest.
        if b.terminal_error
        then err (terminal b.error)
        else if b.completion
        then ok (response_content content b.choices)
        else rest)
      (read_events_stop (response_content content b.choices) before e after other ends)
