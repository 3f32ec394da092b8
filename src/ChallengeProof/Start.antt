-- ===== src/ChallengeProof/Start.antt =====
-- internal/challengeproof/handler.go: NewHandler, and the route beside the agent's own handler. The
-- making of the directory is its result; reading the directory's kind comes after it.
use ne_kiro_samples.Base.{
  String, Bool, true, not, ◌==◌, ◌&&◌, ◌≡◌, ◌≢◌, ◌↔◌, refl, sym, ap, subst, ◌∙◌, Option, none, some,
  Outcome, ok, err, panic, Error, plain, wrapped, guard, or_fail, ◌>>=◌, ◌>>◌, ok_inj, or_fail_then,
  guard_then, bind_then, arith, eq_iff, text_ne,
}
use ne_kiro_samples.Settings.{Lookup}
use ne_kiro_samples.Web.{Answer, page, bytes, HttpHandler}
use ne_kiro_samples.ChallengeProof.{
  Library, Handler, Response, from_agent, not_allowed, not_found, failure, proof, serve_http,
}

-- The functions of other packages: strings.TrimSpace, filepath.IsAbs and Clean, os.MkdirAll (`none` is
-- success), and os.Stat with IsDir.
pub record Files : Type 0 where
  pub trim_space : String → String
  pub is_abs : String → Bool
  pub clean : String → String
  pub make_directory : String → Option Error
  pub is_directory : String → Outcome Bool

abbrev pub directory_made : Option Error → Outcome (Unit {0})
directory_made none = ok tt
directory_made (some e) = err (wrapped "create challenge proof directory: " e)

abbrev pub inspected : Outcome Bool → Outcome Bool
inspected (ok kind) = ok kind
inspected (err e) = err (wrapped "inspect challenge proof directory: " e)
inspected (panic m) = panic m

-- A nil agent or lookup is `none`.
unfoldable pub new_handler {ℓ} :
    {A : Type ℓ} → Files → Option A → Option Lookup → Outcome (A × Handler)
new_handler files given variables = do
  agent ← or_fail given (plain "challenge proof handler dependencies are required")
  lookup ← or_fail variables (plain "challenge proof handler dependencies are required")
  directory ←
      or_fail (lookup "NEKIRO_AGENT_CHALLENGE_DIRECTORY")
        (plain "NEKIRO_AGENT_CHALLENGE_DIRECTORY is required")
  guard (not (directory == "") && files.trim_space directory == directory) (
      plain
        "NEKIRO_AGENT_CHALLENGE_DIRECTORY must be non-empty and contain no surrounding whitespace")
  guard (files.is_abs directory && files.clean directory == directory)
      (plain "NEKIRO_AGENT_CHALLENGE_DIRECTORY must be a clean absolute path")
  directory_made (files.make_directory directory)
  is_directory ← inspected (files.is_directory directory)
  guard is_directory (plain "challenge proof path must be a directory")
  ok (agent, record { directory = directory })

-- What ServeHTTP writes for each response.
abbrev pub answer_of : Response → Answer → Answer
answer_of from_agent own = own
answer_of not_allowed own = page 405
answer_of not_found own = page 404
answer_of failure own = page 500
answer_of (proof value) own = bytes value

abbrev pub application : Library → HttpHandler × Handler → HttpHandler
application lib (agent, h) ready request =
    answer_of (serve_http lib h (record { method = request.method; path = request.path }))
      (agent ready request)

-- The variable names a clean absolute path that is a directory once it has been made.
pub record Directory (files : Files) (lookup : Lookup) (h : Handler) : Type 0 where
  pub given : lookup "NEKIRO_AGENT_CHALLENGE_DIRECTORY" ≡ some h.directory
  pub filled : h.directory ≢ ""
  pub trimmed : files.trim_space h.directory ≡ h.directory
  pub absolute : files.is_abs h.directory ≡ true
  pub clean : files.clean h.directory ≡ h.directory
  pub made : files.make_directory h.directory ≡ none
  pub is_directory : files.is_directory h.directory ≡ ok true

directory_made-eq-ok : (o : Option Error) → directory_made o ≡ ok tt → o ≡ none
directory_made-eq-ok none e = refl
directory_made-eq-ok (some x) e = cc

inspected-eq-ok : (o : Outcome Bool) {b : Bool} → inspected o ≡ ok b → o ≡ ok b
inspected-eq-ok (ok b) e = e
inspected-eq-ok (err x) e = cc
inspected-eq-ok (panic m) e = cc

module _ {A : Type 0} (files : Files) (lookup : Lookup) (agent : A) (h : Handler) where
  new_handler_sound :
      new_handler files (some agent) (some lookup) ≡ ok (agent, h) → Directory files lookup h
  unfolding new_handler
  new_handler_sound e =
      or_fail_then (lookup "NEKIRO_AGENT_CHALLENGE_DIRECTORY") _ _ e λ directory there e.
        guard_then (not (directory == "") && files.trim_space directory == directory) _ _ e
          λ whole e.
            guard_then (files.is_abs directory && files.clean directory == directory) _ _ e
              λ path e. bind_then (directory_made (files.make_directory directory)) _ e λ _ made e.
                bind_then (inspected (files.is_directory directory)) _ e λ kind known e.
                  guard_then kind _ _ e λ right e.
                    subst (Directory files lookup) (ap (λ (p : A × Handler). p.1) (ok_inj e))
                      (record {
                        given = there;
                        filled = λ empty. ground (arith, eq_iff directory "");
                        trimmed = ground (arith, eq_iff (files.trim_space directory) directory);
                        absolute = ground arith;
                        clean = ground (arith, eq_iff (files.clean directory) directory);
                        made = directory_made-eq-ok (files.make_directory directory) made;
                        is_directory =
                            inspected-eq-ok (files.is_directory directory) known ∙ ap ok right;
                      })

  new_handler_complete :
      Directory files lookup h → new_handler files (some agent) (some lookup) ≡ ok (agent, h)
  unfolding new_handler
  new_handler_complete d =
      rw
        (
          d.given,
          text_ne d.filled,
          (eq_iff (files.trim_space h.directory) h.directory).1 d.trimmed,
          d.absolute,
          (eq_iff (files.clean h.directory) h.directory).1 d.clean,
        )
        (rw (d.made, d.is_directory) refl)

  -- With an agent and a lookup, NewHandler returns the agent with a directory exactly when the variable
  -- names it: without surrounding whitespace, as a clean absolute path that can be made and is a
  -- directory.
  pub new_handler_iff :
      (new_handler files (some agent) (some lookup) ≡ ok (agent, h)) ↔ Directory files lookup h
  new_handler_iff = (new_handler_sound, new_handler_complete)

-- The agent is passed on.
pub passes_agent :
    {A : Type 0} (files : Files) (lookup : Lookup) (agent : A) (made : A × Handler)
    → new_handler files (some agent) (some lookup) ≡ ok made
    → made.0 ≡ agent
unfolding new_handler
passes_agent {A} files lookup agent made e =
    or_fail_then (lookup "NEKIRO_AGENT_CHALLENGE_DIRECTORY") _ _ e λ directory there e.
      guard_then (not (directory == "") && files.trim_space directory == directory) _ _ e λ whole e.
        guard_then (files.is_abs directory && files.clean directory == directory) _ _ e λ path e.
          bind_then (directory_made (files.make_directory directory)) _ e λ _ made e.
            bind_then (inspected (files.is_directory directory)) _ e λ kind known e.
              guard_then kind _ _ e λ right e. ap (λ (p : A × Handler). p.0) (sym (ok_inj e))
