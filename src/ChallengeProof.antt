-- ===== src/ChallengeProof.antt =====
-- internal/challengeproof/handler.go: the route that serves ownership proofs beside an agent.
pub mod Served
pub mod Start
mod Tests
use ne_kiro_samples.Base.{
  ◌+◌, String, ℕ, Bool, true, false, not, ◌&&◌, ◌==◌, if◌then◌else◌, Option, none, some, List, take,
  length, leb, nat_eq,
}
use ne_kiro_samples.Identifier.{is_identifier}

-- What is read of an *http.Request.
pub record Request : Type 0 where
  pub method : String
  pub path : String

-- os.Open: the error os.ErrNotExist, another error, or a file with its bytes. Reading it to its end
-- or to a limit may fail, and so may closing it.
pub data Opened : Type 0 where
  missing failed : Opened
  file : (contents : List ℕ) (read_fails close_fails : Bool) → Opened

-- The functions of other packages: strings.TrimPrefix with strings.HasPrefix in one (`none` is a text
-- without the prefix), filepath.Join, os.Open, utf8.Valid and utf8.RuneCount on bytes.
pub record Library : Type 0 where
  pub cut_prefix : (value prefix : String) → Option String
  pub join : (directory name : String) → String
  pub open_file : String → Opened
  pub valid_utf8 : List ℕ → Bool
  pub rune_count : List ℕ → ℕ

pub record Handler : Type 0 where
  pub directory : String

-- What is answered: by the agent's own handler, with a bare status, or with a proof.
pub data Response : Type 0 where
  from_agent not_allowed not_found failure : Response
  proof : List ℕ → Response

abbrev path_prefix : String
path_prefix = "/.well-known/nekiro/challenges/"

abbrev pub maximum_proof_characters : ℕ
maximum_proof_characters = 128

-- utf8.UTFMax * maximumProofCharacters
abbrev pub maximum_proof_bytes : ℕ
maximum_proof_bytes = 512

module _ (lib : Library) where
  unfoldable pub valid_proof : List ℕ → Bool
  valid_proof value =
      if not (nat_eq (length value) 0)
        && (leb (length value) maximum_proof_bytes && lib.valid_utf8 value)
      then leb (lib.rune_count value) maximum_proof_characters
      else false

  -- io.ReadAll of a LimitReader of one byte more than a proof may have.
  abbrev pub serve_file : Opened → Response
  serve_file missing = not_found
  serve_file failed = failure
  serve_file (file contents true close_fails) = failure
  serve_file (file contents false true) = failure
  serve_file (file contents false false) =
      let read = take (maximum_proof_bytes + 1) contents in
      if valid_proof read then proof read else failure

  abbrev pub serve_challenge : Handler → String → String → Response
  serve_challenge h method id =
      if not (method == "GET")
      then not_allowed
      else if not (is_identifier id)
      then not_found
      else serve_file (lib.open_file (lib.join h.directory id))

  abbrev pub serve_cut : Handler → String → Option String → Response
  serve_cut h method none = from_agent
  serve_cut h method (some id) = serve_challenge h method id

  unfoldable pub serve_http : Handler → Request → Response
  serve_http h request = serve_cut h request.method (lib.cut_prefix request.path path_prefix)
