-- ===== src/RuntimeB/Identity/Owners.antt =====
-- Credentials without a NUL have owners of their own: what scopes a task to its caller.
use ne_kiro_samples.Base.{String, ◌≡◌, refl, sym, ap, ◌∙◌, ◌≢◌, some, text_ne}
use Prim.Native.Char.{Char}
use Prim.Native.String.{[], ◌∷◌, ◌++◌}
use text.Mathlib.TextLemmas.{
  cons-append, nil-append, append_assoc, cons≢nil, head-eq_of_cons-eq, tail-eq_of_cons-eq,
}
use ne_kiro_samples.Platform.{Claims}
use ne_kiro_samples.RuntimeB.Identity.{separator, owner_text, observation_owner, task_owner}

abbrev nul : Char
nul = "\0"

unfoldable pub NulFree : String → Type 0
NulFree [] = Unit
NulFree (c ∷ s) = (c ≢ nul) × NulFree s

nul_append : (x : String) → separator ++ x ≡ nul ∷ x
nul_append x = cons-append nul [] x ∙ ap (λ t. nul ∷ t) (nil-append x)

-- The text of a first part and a NUL, from its first character on.
at_end : (x : String) → [] ++ (separator ++ x) ≡ nul ∷ x
at_end x = nil-append (separator ++ x) ∙ nul_append x

pair_eq : (c d : Char) (a b : String) → c ≡ d → a ≡ b → c ∷ a ≡ d ∷ b
pair_eq c d a b e f = cc

-- Two texts with a NUL after a first part without one are equal in their parts only.
split_at_nul :
    (a b x y : String)
    → NulFree a
    → NulFree b
    → a ++ (separator ++ x) ≡ b ++ (separator ++ y)
    → (a ≡ b) × (x ≡ y)
unfolding NulFree
split_at_nul [] [] x y f g e = (refl, tail-eq_of_cons-eq (sym (at_end x) ∙ (e ∙ at_end y)))
split_at_nul [] (c ∷ b) x y f g e =
    absurd
      (g.0 (sym (head-eq_of_cons-eq (sym (at_end x) ∙ (e ∙ cons-append c b (separator ++ y))))))
split_at_nul (c ∷ a) [] x y f g e =
    absurd (f.0 (head-eq_of_cons-eq (sym (cons-append c a (separator ++ x)) ∙ (e ∙ at_end y))))
split_at_nul (c ∷ a) (d ∷ b) x y f g e =
    let rest = sym (cons-append c a (separator ++ x)) ∙ (e ∙ cons-append d b (separator ++ y)) in
    let (front, back) = split_at_nul a b x y f.1 g.1 (tail-eq_of_cons-eq rest) in
    (pair_eq c d a b (head-eq_of_cons-eq rest) front, back)

-- The fields of a credential that scope a task have no NUL; the last one may have any.
pub record IsScoped (c : Claims) : Type 0 where
  pub workspace : NulFree c.workspace_id
  pub agent : NulFree c.agent_id
  pub version : NulFree c.agent_version
  pub release : NulFree c.release_id
  pub digest : NulFree c.card_digest
  pub capability : NulFree c.capability

-- Two credentials stand for one caller: everything that scopes a task agrees.
pub record SameCaller (c d : Claims) : Type 0 where
  pub workspace : c.workspace_id ≡ d.workspace_id
  pub agent : c.agent_id ≡ d.agent_id
  pub version : c.agent_version ≡ d.agent_version
  pub release : c.release_id ≡ d.release_id
  pub digest : c.card_digest ≡ d.card_digest
  pub capability : c.capability ≡ d.capability
  pub invocation : c.invocation_id ≡ d.invocation_id

nonempty : (a x : String) → a ++ (separator ++ x) ≢ ""
nonempty [] x e = cons≢nil (sym (at_end x) ∙ e)
nonempty (c ∷ a) x e = cons≢nil (sym (cons-append c a (separator ++ x)) ∙ e)

owner_text_given : (c : Claims) → owner_text c ≢ ""
owner_text_given c e = nonempty c.workspace_id _ e

task_owner-some :
    (c : Claims) → task_owner (some c) ≡ owner_text c ++ (separator ++ c.invocation_id)
unfolding task_owner observation_owner
task_owner-some c = rw (text_ne (owner_text_given c)) refl

append_assoc6 :
    (a b c d e f x : String)
    → (a
          ++ (separator
              ++ (b
                  ++ (separator
                      ++ (c ++ (separator ++ (d ++ (separator ++ (e ++ (separator ++ f))))))))))
        ++ x
      ≡ a
        ++ (separator
            ++ (b
                ++ (separator
                    ++ (c ++ (separator ++ (d ++ (separator ++ (e ++ (separator ++ (f ++ x))))))))))
append_assoc6 a b c d e f x = simp append_assoc

-- Two credentials whose fields hold no NUL have one task owner only if they agree in everything that
-- scopes a task: workspace, agent, version, release, card, capability and invocation.
pub task_owner_injective :
    (c d : Claims)
    → IsScoped c
    → IsScoped d
    → task_owner (some c) ≡ task_owner (some d)
    → SameCaller c d
task_owner_injective c d v w e =
    let flat =
      sym (
        append_assoc6 c.workspace_id c.agent_id c.agent_version c.release_id c.card_digest
          c.capability (separator ++ c.invocation_id))
      ∙ (sym (task_owner-some c)
          ∙ (e
              ∙ (task_owner-some d
                  ∙ append_assoc6 d.workspace_id d.agent_id d.agent_version d.release_id
                      d.card_digest d.capability (separator ++ d.invocation_id)))) in
    let (workspace, e1) =
      split_at_nul c.workspace_id d.workspace_id _ _ v.workspace w.workspace flat in
    let (agent, e2) = split_at_nul c.agent_id d.agent_id _ _ v.agent w.agent e1 in
    let (version, e3) = split_at_nul c.agent_version d.agent_version _ _ v.version w.version e2 in
    let (release, e4) = split_at_nul c.release_id d.release_id _ _ v.release w.release e3 in
    let (digest, e5) = split_at_nul c.card_digest d.card_digest _ _ v.digest w.digest e4 in
    let (capability, invocation) =
      split_at_nul c.capability d.capability _ _ v.capability w.capability e5 in
    record {
      workspace = workspace;
      agent = agent;
      version = version;
      release = release;
      digest = digest;
      capability = capability;
      invocation = invocation;
    }
