-- ===== src/Signature/Checks.antt =====
-- Which requests the verifier accepts, and which ones the middleware lets through.
use stellar_royalty_splitter.Prelude.{
  ℕ, ◌+◌, ◌≤◌, ◌≡◌, refl, String, true, false, Option, some, arith, string_eq, ◌↔◌,
}
use stellar_royalty_splitter.Signature.{
  Config, Crypto, NonceCache, Request, Signed, Extracted, Checked, ok, error, passed, is_read,
  is_nonce_seen, record_if_ok, verify_signature, verify_request_signature,
  verify_signature_middleware, verify_extracted, extract_headers, judge, as_signed,
}

module _ (c : Crypto) (cfg : Config) (now : ℕ) where
  -- The conditions under which a signed request is genuine.
  pub record IsGenuine (r : Signed) (cache : NonceCache) : Type 0 where
    pub not_early : r.extracted.ts_num ≤ now
    pub not_late : now ≤ r.extracted.ts_num + cfg.max_age_ms
    pub unused : (is_nonce_seen now r.extracted.nonce cache).0 ≡ false
    pub signed : verify_signature c r ≡ ok tt

  record_if_ok-result :
      (nonce : String) (cache : NonceCache) (result : Checked (Unit {0}))
      → (record_if_ok cfg now nonce cache result).0 ≡ result
  unfolding record_if_ok
  record_if_ok-result nonce cache (ok u) = refl
  record_if_ok-result nonce cache (error f) = refl

  -- A request is accepted exactly when its timestamp lies in the window, which ends at the present
  -- time, its nonce is not remembered, and its signature holds under its key.
  pub verify_request_signature_iff :
      (r : Signed) (cache : NonceCache)
      → ((verify_request_signature c cfg now r cache).0 ≡ ok tt) ↔ IsGenuine r cache
  unfolding verify_request_signature
  verify_request_signature_iff r cache =
      let result =
        record_if_ok-result r.extracted.nonce (is_nonce_seen now r.extracted.nonce cache).1
          (verify_signature c r) in
      (λ h. ground (arith, result), λ g. ground (arith, result, g.unused, g.signed))

  judge_passed :
      (signer : String) (v : Option String) (result : Checked (Unit {0}) × NonceCache)
      → cfg.enforced ≡ true
      → (judge cfg signer result).0 ≡ passed v
      → (result.0 ≡ ok tt) × (v ≡ some signer)
  unfolding judge
  judge_passed signer v (ok u, cache) on h = (refl, cc)
  judge_passed signer v (error f, cache) on h = ground arith

  verify_extracted_passed :
      (req : Request) (cache : NonceCache) (headers : Checked Extracted) (v : Option String)
      → cfg.enforced ≡ true
      → (verify_extracted c cfg now req cache headers).0 ≡ passed v
      → (e : Extracted) × (headers ≡ ok e)
        × (v ≡ some e.signed_by)
        × IsGenuine (as_signed req e) cache
  unfolding verify_extracted
  verify_extracted_passed req cache (error f) v on h = absurd (ground arith)
  verify_extracted_passed req cache (ok e) v on h =
      let (accepted, signer) =
        judge_passed e.signed_by v (verify_request_signature c cfg now (as_signed req e) cache) on
          h in
      (e, refl, signer, (verify_request_signature_iff (as_signed req e) cache).0 accepted)

  -- While enforcement is on, a request that may write reaches its handler only with well-formed
  -- headers and a genuine signature, and the signer that the handler sees is the key that signed.
  pub middleware_passed :
      (req : Request) (cache : NonceCache) (v : Option String)
      → cfg.enforced ≡ true
      → is_read req.method ≡ false
      → (verify_signature_middleware c cfg now req cache).0 ≡ passed v
      → (e : Extracted) × (extract_headers c req.headers ≡ ok e)
        × (v ≡ some e.signed_by)
        × IsGenuine (as_signed req e) cache
  unfolding verify_signature_middleware
  middleware_passed req cache v on write h =
      verify_extracted_passed req cache (extract_headers c req.headers) v on (rw write at h)
