-- ===== src/Command/Examples.antt =====
-- Concrete packages for the tests of the commands: a middleware that asks for any credential, a challenge
-- directory without proofs, and a host that ends at once.
use ne_kiro_samples.Base.{
  Bool, true, false, ◌≡◌, refl, ◌==◌, if◌then◌else◌, Option, none, some, length, ◌-◌, ok, wrapped,
  subst, ok_inj,
}
use ne_kiro_samples.Platform.{RouterAuth}
use ne_kiro_samples.Web.{Request, HttpHandler, status, page, Web, Protects}
use ne_kiro_samples.ChallengeProof
use ne_kiro_samples.ChallengeProof.{missing}
use ne_kiro_samples.ChallengeProof.Start.{Files}
use ne_kiro_samples.Command.{RegistrationConfig, Host, registration}

abbrev pub is_given {ℓ} : {A : Type ℓ} → Option A → Bool
is_given none = false
is_given (some a) = true

abbrev pub accepts : Request → Bool
accepts request = is_given request.authorization

abbrev pub asks : HttpHandler → HttpHandler
asks next ready request = if accepts request then next ready request else status 401

-- The last pattern is the agent's.
abbrev pub test_web : Web
test_web = record {
  pick = λ patterns request.
      if request.path == "/readyz"
      then some 0
      else if request.path == "/"
      then some (length patterns - 1)
      else none;
  unmatched = λ patterns request. page 404;
  new_middleware = λ auth. ok asks;
  error_text = λ e. "";
}

pub asks-Protects : Protects accepts asks
asks-Protects next other ready request refused = rw refused refl

pub test_web-Protects :
    (auth : RouterAuth) (m : HttpHandler → HttpHandler)
    → test_web.new_middleware auth ≡ ok m
    → Protects accepts m
test_web-Protects auth m e = subst (Protects accepts) (ok_inj e) asks-Protects

abbrev pub test_files : Files
test_files = record {
  trim_space = λ s. s;
  is_abs = λ s. true;
  clean = λ s. s;
  make_directory = λ s. none;
  is_directory = λ s. ok true;
}

abbrev pub test_proofs : ChallengeProof.Library
test_proofs = record {
  cut_prefix =
      λ value prefix. if value == "/.well-known/nekiro/challenges/c1" then some "c1" else none;
  join = λ directory name. name;
  open_file = λ name. missing;
  valid_utf8 = λ bytes. true;
  rune_count = length;
}

abbrev pub test_registration : RegistrationConfig
test_registration = record { disabled = false; request_timeout = 7; rest = 0 }

abbrev pub test_host : Host
test_host = record {
  wrap = λ stage text e. wrapped text e;
  load_registration = λ lookup prefix agent_id instance_id. ok test_registration;
  new_registration = λ config. ok (registration config);
  new_host = λ config. ok (ok tt);
}

abbrev pub bare : Request
bare = record { method = "POST"; path = "/"; authorization = none }

abbrev pub signed : Request
signed = record { method = "POST"; path = "/"; authorization = some "token" }
