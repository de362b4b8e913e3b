-- ===== src/Signature/Tests.antt =====
-- Signed requests at concrete times, with a stand-in for the cryptography.
use stellar_royalty_splitter.Prelude.{
  ℕ, ◌+◌, ◌-◌, ◌*◌, ◌≡◌, refl, String, true, some, none, Option, List, [], ◌∷◌, arith, string_eq,
  nat_eq, ◌==◌, ◌↔◌, ◌⊎◌, if◌then◌else◌, ap,
}
use stellar_royalty_splitter.Prelude.Map.{get, set, delete, delete_first}
use stellar_royalty_splitter.Prelude.Text.{
  codes, is_digit, is_token_char, is_hex_char, is_base32_char, to_upper,
}
use stellar_royalty_splitter.Signature.{
  Config, Crypto, NonceCache, Signed, Extracted, Request, ok, error, signature_expired,
  nonce_reused, invalid_signature, missing_signature, passed, refused, is_nonce_seen, record_nonce,
  verify_request_signature, verify_signature, verify_signature_middleware, as_signed,
  extract_headers,
}
use stellar_royalty_splitter.Signature.Nonces.{IsBounded}
use stellar_royalty_splitter.Signature.Checks.{
  IsGenuine, verify_request_signature_iff, middleware_passed,
}
use stellar_royalty_splitter.Signature.Retention.{run}
use stellar_royalty_splitter.Signature.Replay.{replay_rejected}

abbrev decimal : ℕ → List ℕ → Option ℕ
decimal acc [] = some acc
decimal acc (d ∷ ds) =
    let rest = decimal (acc * 10 + (d - 48)) ds in if is_digit d then rest else none

abbrev good_signature : String
good_signature =
    "5a5a5a5a5a5a5a5a5a5a5a5a5a5a5a5a5a5a5a5a5a5a5a5a5a5a5a5a5a5a5a5a5a5a5a5a5a5a5a5a5a5a5a5a5a5a5a5a5a5a5a5a5a5a5a5a5a5a5a5a5a5a5a5a"

abbrev key : String
key = "GAAAAAAAAAAAAAAAAAAAAAAAAAAAAAAAAAAAAAAAAAAAAAAAAAAAAAAA"

-- A key and a signature are their own decodings, and a key accepts one signature alone.
abbrev toy : Crypto
toy = record {
  Keypair = String;
  Buffer = String;
  from_public_key = λ key. some key;
  from_hex = λ hex. some hex;
  sha256_hex = λ body. body;
  verify = λ key message buffer. buffer == good_signature;
  number = λ s. decimal 0 (codes s);
}

abbrev small : Config
small = record { max_age_ms = 300; nonce_ttl_ms = 600; nonce_max_entries = 3; enforced = true }

abbrev extracted : String → String → ℕ → Extracted
extracted nonce signature ts_num = record {
  signature = signature;
  signed_by = key;
  nonce = nonce;
  timestamp = "1000";
  ts_num = ts_num;
}

abbrev request : String → String → ℕ → Signed
request nonce signature ts_num = record {
  method = "post";
  path = "/api/v1/distribute";
  extracted = extracted nonce signature ts_num;
  raw_body = none;
}

abbrev first : Signed
first = request "nonce-0000000001" good_signature 1000

abbrev forged : Signed
forged = request "nonce-0000000002" "5b" 1100

abbrev second : Signed
second = request "nonce-0000000003" good_signature 1100

abbrev no_nonces : NonceCache
no_nonces = []

toy_verifier : Unit {0}
unfolding verify_request_signature verify_signature is_nonce_seen record_nonce get set delete
    delete_first to_upper
toy_verifier = tt

verify_tests :
    (verify_request_signature toy small 1200 first no_nonces
      ≡ (ok tt, ("nonce-0000000001", 1800) ∷ []))
    × ((verify_request_signature toy small 1301 first no_nonces).0
        ≡ error (record { status = 401; code = signature_expired }))
    × ((verify_request_signature toy small 999 first no_nonces).0
        ≡ error (record { status = 401; code = signature_expired }))
    × ((verify_request_signature toy small 1200 first (("nonce-0000000001", 1201) ∷ [])).0
        ≡ error (record { status = 401; code = nonce_reused }))
    × ((verify_request_signature toy small 1200 forged no_nonces).0
        ≡ error (record { status = 401; code = invalid_signature }))
unfolding toy_verifier
verify_tests = (refl, refl, refl, refl, refl)

abbrev post : Request
post = record {
  method = "POST";
  original_url = "/api/v1/distribute";
  headers = record {
    signature = some good_signature;
    signed_by = some key;
    nonce = some "nonce-0000000001";
    timestamp = some "1000";
  };
  raw_body = none;
}

middleware_tests :
    ((verify_signature_middleware toy small 1200 post no_nonces).0 ≡ passed (some key))
    × ((verify_signature_middleware toy small 1200
          (record post {
            headers = record { signature = none; signed_by = none; nonce = none; timestamp = none };
          })
          no_nonces).0
        ≡ refused (record { status = 401; code = missing_signature }))
unfolding toy_verifier verify_signature_middleware is_token_char is_hex_char is_base32_char
middleware_tests = (refl, refl)

no_nonces-IsBounded : IsBounded small no_nonces
no_nonces-IsBounded = record { room = omega arith; distinct = tt }

verify_request_signature_iff_example :
    ((verify_request_signature toy small 1200 first no_nonces).0 ≡ ok tt)
    ↔ IsGenuine toy small 1200 first no_nonces
verify_request_signature_iff_example = verify_request_signature_iff toy small 1200 first no_nonces

middleware_passed_example :
    (e : Extracted) × (extract_headers toy post.headers ≡ ok e)
    × (some key ≡ some e.signed_by)
    × IsGenuine toy small 1200 (as_signed post e) no_nonces
middleware_passed_example =
    middleware_passed toy small 1200 post no_nonces (some key) refl refl middleware_tests.0

replay_rejected_example :
    let after =
      run toy small
        (record { at = 1250; signed = forged } ∷ record { at = 1260; signed = second } ∷ [])
        (verify_request_signature toy small 1200 first no_nonces).1 in
    let answer = (verify_request_signature toy small 1290 first after).0 in
    (answer ≡ error (record { status = 401; code = signature_expired }))
    ⊎ (answer ≡ error (record { status = 401; code = nonce_reused }))
unfolding verify_tests
replay_rejected_example =
    replay_rejected toy small 1200 1290 first first
      (record { at = 1250; signed = forged } ∷ record { at = 1260; signed = second } ∷ []) no_nonces
      (omega arith) (omega arith) (omega arith, (omega arith, tt)) (ap (λ r. r.0) verify_tests.0)
      refl refl
