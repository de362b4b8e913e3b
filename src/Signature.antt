-- ===== src/Signature.antt =====
-- backend/src/verify-signature.js: the Ed25519 request signature, its time window and the nonce
-- cache. One reading of the clock serves a whole call. The Stellar SDK, SHA-256 and JavaScript's
-- `Number` are parameters (`Crypto`); a fraction of a millisecond in a timestamp is left out.
pub mod Nonces
pub mod Retention
pub mod Replay
pub mod Checks
mod Tests
use stellar_royalty_splitter.Prelude.{
  ℕ, suc, ◌+◌, ◌-◌, ◌≡◌, String, Bool, true, false, ◌&&◌, ◌||◌, Option, none, some, List, [], ◌∷◌,
  ◌++◌, ltb, leb, ◌==◌, nat_eq, string_eq, if◌then◌else◌, length, keep, all, not, or_else,
}
use stellar_royalty_splitter.Prelude.Map.{Map, get, set, delete, delete_first}
use stellar_royalty_splitter.Prelude.Text.{
  codes, is_token_char, is_hex_char, is_base32_char, to_upper,
}

-- `SIGNATURE_MAX_AGE_MS`, `NONCE_TTL_MS`, `NONCE_MAX_ENTRIES` and `isEnforcementEnabled`.
pub record Config : Type 0 where
  pub max_age_ms : ℕ
  pub nonce_ttl_ms : ℕ
  pub nonce_max_entries : ℕ
  pub enforced : Bool

-- The defaults: 5 minutes, 10 minutes, 50000 nonces, enforcement on.
abbrev pub default_config : Config
default_config = record {
  max_age_ms = 300000;
  nonce_ttl_ms = 600000;
  nonce_max_entries = 50000;
  enforced = true;
}

-- What the module takes from outside: `Keypair.fromPublicKey` (`none` is a throw), `keypair.verify`
-- (a throw counts as false), `Buffer.from(_, "hex")`, the SHA-256 of the body, and `Number`
-- (`none` is NaN, an infinity or a negative number).
pub record Crypto : Type 1 where
  pub Keypair : Type 0
  pub Buffer : Type 0
  pub from_public_key : String → Option Keypair
  pub from_hex : String → Option Buffer
  pub sha256_hex : List ℕ → List ℕ
  pub verify : Keypair → List ℕ → Buffer → Bool
  pub number : String → Option ℕ

-- nonce → expiresAt
abbrev pub NonceCache : Type 0
NonceCache = Map String ℕ

abbrev pub is_fresh : ℕ → String × ℕ → Bool
is_fresh now e = ltb now e.1

unfoldable pub evict_expired : ℕ → NonceCache → NonceCache
evict_expired now cache = keep (is_fresh now) cache

-- `expiresAt !== undefined && expiresAt > Date.now()`
abbrev pub expires_after : ℕ → Option ℕ → Bool
expires_after now none = false
expires_after now (some expires_at) = ltb now expires_at

unfoldable pub is_nonce_seen : ℕ → String → NonceCache → Bool × NonceCache
unfolding evict_expired
is_nonce_seen now nonce cache =
    let cache' = evict_expired now cache in (expires_after now (get nonce cache'), cache')

unfoldable pub record_nonce : Config → ℕ → String → NonceCache → NonceCache
unfolding evict_expired
record_nonce cfg now nonce cache =
    let cache' = evict_expired now cache in
    set nonce (now + cfg.nonce_ttl_ms)
      (if leb cfg.nonce_max_entries (length cache') then delete_first cache' else cache')

pub data Code : Type 0 where
  missing_signature invalid_signature_format invalid_signer_format : Code
  invalid_nonce_format invalid_timestamp_format : Code
  signature_expired nonce_reused invalid_public_key : Code
  invalid_signature_encoding invalid_signature : Code

pub record Failure : Type 0 where
  pub status : ℕ
  pub code : Code

-- A missing header is `none`; an empty one counts as missing.
pub record Headers : Type 0 where
  pub signature : Option String
  pub signed_by : Option String
  pub nonce : Option String
  pub timestamp : Option String

pub record Extracted : Type 0 where
  pub signature : String
  pub signed_by : String
  pub nonce : String
  pub timestamp : String
  pub ts_num : ℕ

pub data Checked (A : Type 0) : Type 0 where
  ok : A → Checked A
  error : Failure → Checked A

infixl 5 ◌>>=◌ ◌>>◌
abbrev pub ◌>>=◌ : {A B : Type 0} → Checked A → (A → Checked B) → Checked B
ok a >>= f = f a
error e >>= f = error e

abbrev pub ◌>>◌ : {B : Type 0} → Checked (Unit {0}) → Checked B → Checked B
m >> k = m >>= λ _. k

abbrev pub check : Bool → ℕ → Code → Checked (Unit {0})
check true status code = ok tt
check false status code = error (record { status = status; code = code })

abbrev pub present : Option String → Checked String
present none = error (record { status = 401; code = missing_signature })
present (some s) =
    if s == "" then error (record { status = 401; code = missing_signature }) else ok s

-- `NONCE_RE`, `HEX_SIG_RE` and `STELLAR_PUBKEY_RE`.
unfoldable pub is_nonce : List ℕ → Bool
is_nonce s = all is_token_char s && (leb 16 (length s) && leb (length s) 128)

unfoldable pub is_hex_signature : List ℕ → Bool
is_hex_signature s = all is_hex_char s && length s == 128

unfoldable pub is_public_key : List ℕ → Bool
is_public_key [] = false
is_public_key (c ∷ s) = c == b'G' && (all is_base32_char s && length s == 55)

-- `Number.isFinite(tsNum) && tsNum > 0`
abbrev pub positive : Option ℕ → Checked ℕ
positive none = error (record { status = 400; code = invalid_timestamp_format })
positive (some n) =
    if n == 0 then error (record { status = 400; code = invalid_timestamp_format }) else ok n

pub record Request : Type 0 where
  pub method : String
  pub original_url : String
  pub headers : Headers
  pub raw_body : Option (List ℕ)

-- A request with its extracted headers, as `verifyRequestSignature` takes them.
pub record Signed : Type 0 where
  pub method : String
  pub path : String
  pub extracted : Extracted
  pub raw_body : Option (List ℕ)

-- `buildSignedString`: METHOD, PATH, TIMESTAMP, NONCE and the hash of the body, line by line.
unfoldable pub build_signed_string :
    Crypto → String → String → String → String → Option (List ℕ) → List ℕ
build_signed_string c method path timestamp nonce raw_body =
    to_upper (codes method)
    ++ (10
        ∷ (codes path
            ++ (10
                ∷ (codes timestamp
                    ++ (10 ∷ (codes nonce ++ (10 ∷ c.sha256_hex (or_else raw_body []))))))))

-- `extractHeaders`
unfoldable pub extract_headers : Crypto → Headers → Checked Extracted
unfolding is_hex_signature is_public_key is_nonce
extract_headers c h = do
  raw_sig ← present h.signature
  signed_by ← present h.signed_by
  nonce ← present h.nonce
  timestamp ← present h.timestamp
  check (is_hex_signature (codes raw_sig)) 400 invalid_signature_format
  check (is_public_key (codes signed_by)) 400 invalid_signer_format
  check (is_nonce (codes nonce)) 400 invalid_nonce_format
  ts_num ← positive (c.number timestamp)
  ok (record {
    signature = raw_sig;
    signed_by = signed_by;
    nonce = nonce;
    timestamp = timestamp;
    ts_num = ts_num;
  })

abbrev or_fail : {A : Type 0} → Option A → Code → Checked A
or_fail none code = error (record { status = 400; code = code })
or_fail (some a) code = ok a

-- Steps 3 to 5 of `verifyRequestSignature`: the key, the hex signature, the Ed25519 check.
unfoldable pub verify_signature : Crypto → Signed → Checked (Unit {0})
unfolding build_signed_string
verify_signature c r = do
  keypair ← or_fail (c.from_public_key r.extracted.signed_by) invalid_public_key
  buffer ← or_fail (c.from_hex r.extracted.signature) invalid_signature_encoding
  check
      (c.verify keypair
        (build_signed_string c r.method r.path r.extracted.timestamp r.extracted.nonce r.raw_body)
        buffer)
      401 invalid_signature

-- The timestamp window, `age < 0 || age > SIGNATURE_MAX_AGE_MS` with `age = now - tsNum`.
unfoldable pub is_outside_window : Config → ℕ → ℕ → Bool
is_outside_window cfg now ts_num = ltb now ts_num || ltb cfg.max_age_ms (now - ts_num)

-- A nonce is recorded only behind a valid signature.
record_if_ok :
    Config → ℕ → String → NonceCache → Checked (Unit {0}) → Checked (Unit {0}) × NonceCache
record_if_ok cfg now nonce cache (ok u) = (ok u, record_nonce cfg now nonce cache)
record_if_ok cfg now nonce cache (error f) = (error f, cache)

-- `verifyRequestSignature`, in the order of its six steps.
unfoldable pub verify_request_signature :
    Crypto → Config → ℕ → Signed → NonceCache → Checked (Unit {0}) × NonceCache
unfolding is_outside_window record_if_ok
verify_request_signature c cfg now r cache =
    if is_outside_window cfg now r.extracted.ts_num
    then (error (record { status = 401; code = signature_expired }), cache)
    else (let (seen, cache') = is_nonce_seen now r.extracted.nonce cache in
        if seen
        then (error (record { status = 401; code = nonce_reused }), cache')
        else record_if_ok cfg now r.extracted.nonce cache' (verify_signature c r))

-- What `verifySignatureMiddleware` does: `next()`, with or without `req.verifiedSigner`, or an error.
pub data Verdict : Type 0 where
  passed : Option String → Verdict
  refused : Failure → Verdict

-- A failure is let through while enforcement is off.
abbrev fail_or_pass : Config → Failure → Verdict
fail_or_pass cfg f = if cfg.enforced then refused f else passed none

judge : Config → String → Checked (Unit {0}) × NonceCache → Verdict × NonceCache
judge cfg signer (ok u, cache) = (passed (some signer), cache)
judge cfg signer (error f, cache) = (fail_or_pass cfg f, cache)

-- The arguments of the call of `verifyRequestSignature`.
abbrev pub as_signed : Request → Extracted → Signed
as_signed req e = record {
  method = req.method;
  path = req.original_url;
  extracted = e;
  raw_body = req.raw_body;
}

verify_extracted :
    Crypto → Config → ℕ → Request → NonceCache → Checked Extracted → Verdict × NonceCache
unfolding judge
verify_extracted c cfg now req cache (error f) = (fail_or_pass cfg f, cache)
verify_extracted c cfg now req cache (ok e) =
    judge cfg e.signed_by (verify_request_signature c cfg now (as_signed req e) cache)

-- `GET`, `HEAD` and `OPTIONS` are not protected.
abbrev pub is_read : String → Bool
is_read method = method == "GET" || (method == "HEAD" || method == "OPTIONS")

unfoldable pub verify_signature_middleware :
    Crypto → Config → ℕ → Request → NonceCache → Verdict × NonceCache
unfolding verify_extracted extract_headers
verify_signature_middleware c cfg now req cache =
    if is_read req.method
    then (passed none, cache)
    else verify_extracted c cfg now req cache (extract_headers c req.headers)
