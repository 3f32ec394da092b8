-- ===== src/ChallengeProof/Tests.antt =====
-- A directory with one proof, and the route over it.
use ne_kiro_samples.Base.{
  String, true, false, ◌≡◌, refl, ◌↔◌, ◌==◌, if◌then◌else◌, none, some, [], ◌∷◌, length, ok,
}
use ne_kiro_samples.Identifier.{is_identifier, all_characters}
use ne_kiro_samples.ChallengeProof.{
  Request, missing, file, Library, Handler, proof, not_found, valid_proof, serve_http,
}
use ne_kiro_samples.Settings.{Lookup}
use ne_kiro_samples.ChallengeProof.Start.{Files, Directory, new_handler, new_handler_iff}
use ne_kiro_samples.ChallengeProof.Served.{Served, serve_http_iff}

abbrev files : Library
files = record {
  cut_prefix = λ value prefix.
      if value == "/.well-known/nekiro/challenges/c1"
      then some "c1"
      else if value == "/.well-known/nekiro/challenges/../c1"
      then some "../c1"
      else none;
  join = λ directory name. name;
  open_file = λ name. if name == "c1" then file (104 ∷ 105 ∷ []) false false else missing;
  valid_utf8 = λ bytes. true;
  rune_count = length;
}

abbrev route : Handler
route = record { directory = "/proofs" }

abbrev get : String → Request
get path = record { method = "GET"; path = path }

served : serve_http files route (get "/.well-known/nekiro/challenges/c1") ≡ proof (104 ∷ 105 ∷ [])
unfolding serve_http valid_proof is_identifier all_characters
served = refl

confined : serve_http files route (get "/.well-known/nekiro/challenges/../c1") ≡ not_found
unfolding serve_http is_identifier all_characters
confined = refl

serve_http_iff_example :
    (serve_http files route (get "/.well-known/nekiro/challenges/c1") ≡ proof (104 ∷ 105 ∷ []))
    ↔ Served files route (get "/.well-known/nekiro/challenges/c1") (104 ∷ 105 ∷ [])
serve_http_iff_example =
    serve_http_iff files route (get "/.well-known/nekiro/challenges/c1") (104 ∷ 105 ∷ [])

abbrev disk : Files
disk = record {
  trim_space = λ s. s;
  is_abs = λ s. if s == "/proofs" then true else false;
  clean = λ s. s;
  make_directory = λ s. none;
  is_directory = λ s. ok true;
}

abbrev variables : Lookup
variables name = if name == "NEKIRO_AGENT_CHALLENGE_DIRECTORY" then some "/proofs" else none

new_handler_iff_example :
    (new_handler {A = String} disk (some "agent") (some variables) ≡ ok ("agent", route))
    ↔ Directory disk variables route
new_handler_iff_example = new_handler_iff disk variables "agent" route

starts : new_handler {A = String} disk (some "agent") (some variables) ≡ ok ("agent", route)
unfolding new_handler
starts = refl
