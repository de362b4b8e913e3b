-- ===== src/Signature/Nonces.antt =====
-- The nonce cache: its capacity, its distinct keys, and what a rejected request leaves of it.
use stellar_royalty_splitter.Prelude.{
  ℕ, ◌+◌, ◌-◌, ◌≤◌, ◌≡◌, refl, String, [], ◌∷◌, arith, length, length-keep, string_eq, leb,
  Bool-cases, inl, inr, ◌⊎◌, sym, ◌∙◌,
}
use stellar_royalty_splitter.Prelude.Map.{get, delete_first, IsValid}
use stellar_royalty_splitter.Prelude.Map.Laws.{
  length-delete_first, length-set, set-IsValid, delete_first-IsValid, keep-IsValid, get-keep-none,
}
use stellar_royalty_splitter.Signature.{
  Config, Crypto, NonceCache, Signed, Checked, ok, error, Failure, is_fresh, evict_expired,
  expires_after, is_nonce_seen, record_nonce, record_if_ok, verify_signature,
  verify_request_signature,
}

evict-IsValid : (now : ℕ) (cache : NonceCache) → IsValid cache → IsValid (evict_expired now cache)
unfolding evict_expired
evict-IsValid now cache h = keep-IsValid (is_fresh now) cache h

-- The cache holds at most `nonce_max_entries` nonces, none of them twice.
pub record IsBounded (cfg : Config) (cache : NonceCache) : Type 0 where
  pub room : length cache ≤ cfg.nonce_max_entries
  pub distinct : IsValid cache

module _ (cfg : Config) where
  evict_expired-IsBounded :
      (now : ℕ) (cache : NonceCache) → IsBounded cfg cache → IsBounded cfg (evict_expired now cache)
  unfolding evict_expired
  evict_expired-IsBounded now cache h = record {
    room = omega (arith, h.room, length-keep (is_fresh now) cache);
    distinct = keep-IsValid (is_fresh now) cache h.distinct;
  }

  record_nonce-IsBounded :
      (now : ℕ) (nonce : String) (cache : NonceCache)
      → 1 ≤ cfg.nonce_max_entries
      → IsBounded cfg cache
      → IsBounded cfg (record_nonce cfg now nonce cache)
  unfolding record_nonce
  record_nonce-IsBounded now nonce cache positive h =
      let kept = evict_expired now cache in
      let kept-IsBounded = evict_expired-IsBounded now cache h in
      elim (Bool-cases (leb cfg.nonce_max_entries (length kept))) [
        | inl full ↦ rw full (record {
          room = omega (
            arith,
            length-set nonce (now + cfg.nonce_ttl_ms) (delete_first kept),
            length-delete_first kept (cfg.nonce_max_entries - 1)
                (omega (arith, kept-IsBounded.room)),
          );
          distinct =
              set-IsValid nonce _ (delete_first kept)
                (delete_first-IsValid kept kept-IsBounded.distinct);
        })
        | inr space ↦ rw space (record {
          room = ground (arith, length-set nonce (now + cfg.nonce_ttl_ms) kept);
          distinct = set-IsValid nonce _ kept kept-IsBounded.distinct;
        })
      ]

  record_if_ok-IsBounded :
      (now : ℕ) (nonce : String) (cache : NonceCache) (result : Checked (Unit {0}))
      → 1 ≤ cfg.nonce_max_entries
      → IsBounded cfg cache
      → IsBounded cfg (record_if_ok cfg now nonce cache result).1
  unfolding record_if_ok
  record_if_ok-IsBounded now nonce cache (ok u) positive h =
      record_nonce-IsBounded now nonce cache positive h
  record_if_ok-IsBounded now nonce cache (error f) positive h = h

  -- Every call of `verifyRequestSignature`, accepted or rejected, keeps the nonce cache within its
  -- capacity and its keys distinct, if the capacity is at least 1.
  pub verify_request_signature-IsBounded :
      (c : Crypto) (now : ℕ) (r : Signed) (cache : NonceCache)
      → 1 ≤ cfg.nonce_max_entries
      → IsBounded cfg cache
      → IsBounded cfg (verify_request_signature c cfg now r cache).1
  unfolding verify_request_signature is_nonce_seen
  verify_request_signature-IsBounded c now r cache positive h = ground (
    arith,
    evict_expired-IsBounded now cache h,
    record_if_ok-IsBounded now r.extracted.nonce (evict_expired now cache) (verify_signature c r)
        positive,
  )

-- Dropping the nonces that have expired changes nothing that a lookup can see, then or later.
pub expires_after-evict_expired :
    (now later : ℕ) (nonce : String) (cache : NonceCache)
    → now ≤ later
    → IsValid cache
    → expires_after later (get nonce (evict_expired now cache))
      ≡ expires_after later (get nonce cache)
unfolding evict_expired get
expires_after-evict_expired now later nonce [] le h = refl
expires_after-evict_expired now later nonce ((k, v) ∷ cache) le h = ground (
  arith,
  expires_after-evict_expired now later nonce cache le h.1,
  string_eq.same_iff k nonce,
  get-keep-none (is_fresh now) k cache h.0,
  get-keep-none (is_fresh now) nonce cache,
)

is_nonce_seen-eq :
    (later : ℕ) (nonce : String) (cache : NonceCache)
    → IsValid cache
    → (is_nonce_seen later nonce cache).0 ≡ expires_after later (get nonce cache)
unfolding is_nonce_seen
is_nonce_seen-eq later nonce cache valid =
    expires_after-evict_expired later later nonce cache (omega arith) valid

record_if_ok_error :
    (cfg : Config) (now : ℕ) (nonce : String) (cache : NonceCache) (result : Checked (Unit {0}))
    {f : Failure}
    → (record_if_ok cfg now nonce cache result).0 ≡ error f
    → (record_if_ok cfg now nonce cache result).1 ≡ cache
unfolding record_if_ok
record_if_ok_error cfg now nonce cache (ok u) h = cc
record_if_ok_error cfg now nonce cache (error f) h = refl

-- A rejected request leaves the cache, or drops the nonces that have expired.
verify_error-cases :
    (c : Crypto) (cfg : Config) (now : ℕ) (r : Signed) (cache : NonceCache) {f : Failure}
    → (verify_request_signature c cfg now r cache).0 ≡ error f
    → ((verify_request_signature c cfg now r cache).1 ≡ cache)
      ⊎ ((verify_request_signature c cfg now r cache).1 ≡ evict_expired now cache)
unfolding verify_request_signature is_nonce_seen
verify_error-cases c cfg now r cache h = ground (
  arith,
  record_if_ok_error cfg now r.extracted.nonce (evict_expired now cache) (verify_signature c r),
)

-- A rejected request uses up no nonce: at that time and at any later one exactly the same nonces
-- count as seen as if it had not been made, if no nonce stands twice in the cache.
pub verify_error_keeps_nonces :
    (c : Crypto) (cfg : Config) (now later : ℕ) (r : Signed) (nonce : String) (cache : NonceCache)
    (f : Failure)
    → IsValid cache
    → now ≤ later
    → (verify_request_signature c cfg now r cache).0 ≡ error f
    → (is_nonce_seen later nonce (verify_request_signature c cfg now r cache).1).0
      ≡ (is_nonce_seen later nonce cache).0
verify_error_keeps_nonces c cfg now later r nonce cache f valid le failed =
    elim (verify_error-cases c cfg now r cache failed) [
      | inl same ↦ rw same
      | inr evicted ↦ rw evicted (
          is_nonce_seen-eq later nonce (evict_expired now cache) (evict-IsValid now cache valid)
          ∙ expires_after-evict_expired now later nonce cache le valid
          ∙ sym (is_nonce_seen-eq later nonce cache valid))
    ]
