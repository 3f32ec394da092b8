-- ===== src/ChallengeProof/Served.antt =====
-- When a proof is served, and that it is the whole file.
use ne_kiro_samples.Base.{
  String, ℕ, Bool, true, false, ◌≡◌, refl, sym, ap, ◌∙◌, ◌↔◌, ◌≤◌, ◌<◌, if◌then◌else◌, Option, none,
  some, List, [], ◌∷◌, take, length, zero, suc, arith, eq_iff,
}
use ne_kiro_samples.Identifier.{is_identifier}
use ne_kiro_samples.ChallengeProof.{
  Request, Opened, missing, failed, file, Library, Handler, proof, failure, path_prefix,
  valid_proof, serve_file, serve_challenge, serve_cut, serve_http,
}

-- The bytes of a proof.
pub record IsProof (lib : Library) (bytes : List ℕ) : Type 0 where
  pub filled : 0 < length bytes
  pub short : length bytes ≤ 512
  pub text : lib.valid_utf8 bytes ≡ true
  pub few : lib.rune_count bytes ≤ 128

-- What a served proof rests on.
pub record Served (lib : Library) (h : Handler) (request : Request) (bytes : List ℕ) : Type 0 where
  pub id : String
  pub asked : lib.cut_prefix request.path path_prefix ≡ some id
  pub get : request.method ≡ "GET"
  pub safe : is_identifier id ≡ true
  pub stands : lib.open_file (lib.join h.directory id) ≡ file bytes false false
  pub is_proof : IsProof lib bytes

take_short : (n : ℕ) (xs : List ℕ) → length xs ≤ n → take n xs ≡ xs
take_short zero [] h = refl
take_short zero (x ∷ xs) h = absurd (omega (arith, h))
take_short (suc n) [] h = refl
take_short (suc n) (x ∷ xs) h = ap (λ ys. x ∷ ys) (take_short n xs (omega (arith, h)))

take_all : (n : ℕ) (xs : List ℕ) → length (take (suc n) xs) ≤ n → take (suc n) xs ≡ xs
take_all n [] h = refl
take_all zero (x ∷ xs) h = absurd (omega (arith, h))
take_all (suc n) (x ∷ xs) h = ap (λ ys. x ∷ ys) (take_all n xs (omega (arith, h)))

valid_proof-IsProof :
    (lib : Library) (bytes : List ℕ) → valid_proof lib bytes ≡ true → IsProof lib bytes
unfolding valid_proof
valid_proof-IsProof lib bytes e = record {
  filled = ground arith;
  short = ground arith;
  text = ground arith;
  few = ground arith;
}

IsProof-valid_proof :
    (lib : Library) (bytes : List ℕ) → IsProof lib bytes → valid_proof lib bytes ≡ true
unfolding valid_proof
IsProof-valid_proof lib bytes p = ground arith

proof_given :
    (b : Bool) (read bytes : List ℕ)
    → (if b then proof read else failure) ≡ proof bytes
    → (b ≡ true) × (read ≡ bytes)
proof_given b read bytes e = ground arith

whole :
    (lib : Library) (contents bytes : List ℕ)
    → take 513 contents ≡ bytes
    → IsProof lib bytes
    → contents ≡ bytes
whole lib contents bytes same p =
    sym (take_all 512 contents (omega (arith, p.short, ap length same))) ∙ same

module _ (lib : Library) (bytes : List ℕ) where
  serve_file_sound :
      (o : Opened)
      → serve_file lib o ≡ proof bytes
      → (o ≡ file bytes false false) × IsProof lib bytes
  serve_file_sound missing e = cc
  serve_file_sound failed e = cc
  serve_file_sound (file contents true close_fails) e = cc
  serve_file_sound (file contents false true) e = cc
  serve_file_sound (file contents false false) e =
      let (valid, same) =
        proof_given (valid_proof lib (take 513 contents)) (take 513 contents) bytes e in
      let p = valid_proof-IsProof lib bytes (ap (valid_proof lib) (sym same) ∙ valid) in
      (ap (λ c. file c false false) (whole lib contents bytes same p), p)

  serve_file_complete : IsProof lib bytes → serve_file lib (file bytes false false) ≡ proof bytes
  serve_file_complete p =
      rw (take_short 513 bytes (omega (arith, p.short)), IsProof-valid_proof lib bytes p) refl

  module _ (h : Handler) where
    serve_challenge_sound :
        (method id : String)
        → serve_challenge lib h method id ≡ proof bytes
        → (method ≡ "GET")
          × (is_identifier id ≡ true)
          × (serve_file lib (lib.open_file (lib.join h.directory id)) ≡ proof bytes)
    serve_challenge_sound method id e = ground (arith, eq_iff method "GET")

    served_cut :
        (method : String) (o : Option String)
        → serve_cut lib h method o ≡ proof bytes
        → (id : String) × (o ≡ some id) × (serve_challenge lib h method id ≡ proof bytes)
    served_cut method none e = cc
    served_cut method (some id) e = (id, refl, e)

    serve_http_sound :
        (request : Request) → serve_http lib h request ≡ proof bytes → Served lib h request bytes
    unfolding serve_http
    serve_http_sound request e =
        let (id, asked, served) =
          served_cut request.method (lib.cut_prefix request.path path_prefix) e in
        let (get, safe, opened) = serve_challenge_sound request.method id served in
        let (stands, p) = serve_file_sound (lib.open_file (lib.join h.directory id)) opened in
        record { id = id; asked = asked; get = get; safe = safe; stands = stands; is_proof = p }

    serve_http_complete :
        (request : Request) → Served lib h request bytes → serve_http lib h request ≡ proof bytes
    unfolding serve_http
    serve_http_complete request s =
        rw (s.asked, s.get) (rw (s.safe, s.stands) (serve_file_complete s.is_proof))

-- The route answers with the bytes of a proof exactly when the path asks with GET for a safe
-- identifier, the file of that name in the directory can be read and closed, and its whole contents
-- are these bytes: between 1 and 512 of them, UTF-8, at most 128 characters.
pub serve_http_iff :
    (lib : Library) (h : Handler) (request : Request) (bytes : List ℕ)
    → (serve_http lib h request ≡ proof bytes) ↔ Served lib h request bytes
serve_http_iff lib h request bytes =
    (serve_http_sound lib bytes h request, serve_http_complete lib bytes h request)
