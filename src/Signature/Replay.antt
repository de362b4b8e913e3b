-- ===== src/Signature/Replay.antt =====
-- Replay protection: the timestamp window is shorter than the life of a nonce, so a signed request
-- cannot be used twice unless the nonce cache overflows in between.
use stellar_royalty_splitter.Prelude.{
  ℕ, ◌+◌, ◌≤◌, ◌<◌, ◌≡◌, refl, String, true, false, List, [], ◌∷◌, arith, length, keep, All,
  string_eq, none, Bool-cases, inl, inr, ◌⊎◌,
}
use stellar_royalty_splitter.Prelude.Map.{get, delete_first}
use stellar_royalty_splitter.Prelude.Map.Retention.{Retains, Retains-set_self}
use stellar_royalty_splitter.Prelude.Map.Laws.{get-delete_first-none, get-keep-none}
use stellar_royalty_splitter.Signature.{
  Config, Crypto, NonceCache, Signed, ok, error, signature_expired, nonce_reused, is_fresh,
  evict_expired, expires_after, is_nonce_seen, record_nonce, is_outside_window,
  verify_request_signature,
}
use stellar_royalty_splitter.Signature.Retention.{Call, run, run-Retains, is_nonce_seen-Retains}
use stellar_royalty_splitter.Signature.Checks.{IsGenuine, verify_request_signature_iff}

-- What is found in the cache once the expired nonces are gone has not expired.
evict_expired-get-none :
    (now : ℕ) (nonce : String) (cache : NonceCache)
    → expires_after now (get nonce (evict_expired now cache)) ≡ false
    → get nonce (evict_expired now cache) ≡ none
unfolding evict_expired get
evict_expired-get-none now nonce [] h = refl
evict_expired-get-none now nonce ((k, v) ∷ cache) h =
    ground (arith, evict_expired-get-none now nonce cache)

inside_window :
    (cfg : Config) (now ts_num : ℕ)
    → is_outside_window cfg now ts_num ≡ false
    → (ts_num ≤ now) × (now ≤ ts_num + cfg.max_age_ms)
unfolding is_outside_window
inside_window cfg now ts_num h = ground arith

All-mono {ℓ κ μ} :
    {A : Type ℓ} {P : A → Type κ} {Q : A → Type μ} (xs : List A)
    → ((x : A) → P x → Q x)
    → All P xs
    → All Q xs
All-mono [] f h = tt
All-mono (x ∷ xs) f h = (f x h.0, All-mono xs f h.1)

module _ (c : Crypto) (cfg : Config) where
  verify_outside :
      (now : ℕ) (r : Signed) (cache : NonceCache)
      → is_outside_window cfg now r.extracted.ts_num ≡ true
      → (verify_request_signature c cfg now r cache).0
        ≡ error (record { status = 401; code = signature_expired })
  unfolding verify_request_signature
  verify_outside now r cache outside = rw outside

  verify_retained :
      (now : ℕ) (r : Signed) (expires_at n : ℕ) (cache : NonceCache)
      → is_outside_window cfg now r.extracted.ts_num ≡ false
      → now < expires_at
      → Retains r.extracted.nonce expires_at n cache
      → (verify_request_signature c cfg now r cache).0
        ≡ error (record { status = 401; code = nonce_reused })
  unfolding verify_request_signature
  verify_retained now r expires_at n cache inside live h =
      rw (inside, is_nonce_seen-Retains c cfg r.extracted.nonce expires_at n now cache live h)

  record_nonce-Retains_self :
      (now : ℕ) (nonce : String) (cache : NonceCache)
      → get nonce cache ≡ none
      → Retains nonce (now + cfg.nonce_ttl_ms) 0 (record_nonce cfg now nonce cache)
  unfolding record_nonce evict_expired
  record_nonce-Retains_self now nonce cache fresh =
      let cache' : NonceCache = keep (is_fresh now) cache in
      let kept = get-keep-none (is_fresh now) nonce cache fresh in
      let expires_at = now + cfg.nonce_ttl_ms in
      ground (
        arith,
        Retains-set_self nonce expires_at cache' kept,
        Retains-set_self nonce expires_at (delete_first cache')
            (get-delete_first-none nonce cache' kept),
      )

  verify_accepted-cache :
      (now : ℕ) (r : Signed) (cache : NonceCache)
      → IsGenuine c cfg now r cache
      → (verify_request_signature c cfg now r cache).1
        ≡ record_nonce cfg now r.extracted.nonce (is_nonce_seen now r.extracted.nonce cache).1
  unfolding verify_request_signature
  verify_accepted-cache now r cache g = ground (arith, g.unused, g.signed)

  -- An accepted request leaves its nonce at the end of the cache.
  verify_accepted-Retains :
      (now : ℕ) (r : Signed) (cache : NonceCache)
      → IsGenuine c cfg now r cache
      → Retains r.extracted.nonce
          (now + cfg.nonce_ttl_ms)
          0
          (verify_request_signature c cfg now r cache).1
  unfolding is_nonce_seen
  verify_accepted-Retains now r cache g = rw (verify_accepted-cache now r cache g) (
      record_nonce-Retains_self now r.extracted.nonce (evict_expired now cache)
        (evict_expired-get-none now r.extracted.nonce cache g.unused))

  -- A signed request is accepted once. After it has been accepted, a request with its nonce and its
  -- timestamp is rejected at every later time, as expired or as a replay, whatever requests come in
  -- between, if they are fewer than the capacity of the nonce cache, none of them
  -- is later than the second use, and nonces are remembered longer than a timestamp may be old.
  pub replay_rejected :
      (now later : ℕ) (r again : Signed) (calls : List Call) (cache : NonceCache)
      → cfg.max_age_ms < cfg.nonce_ttl_ms
      → length calls < cfg.nonce_max_entries
      → All (λ call. call.at ≤ later) calls
      → (verify_request_signature c cfg now r cache).0 ≡ ok tt
      → again.extracted.nonce ≡ r.extracted.nonce
      → again.extracted.ts_num ≡ r.extracted.ts_num
      → let after = run c cfg calls (verify_request_signature c cfg now r cache).1 in
        let answer = (verify_request_signature c cfg later again after).0 in
        (answer ≡ error (record { status = 401; code = signature_expired }))
        ⊎ (answer ≡ error (record { status = 401; code = nonce_reused }))
  replay_rejected now later r again calls cache ages room order accepted same_nonce same_time =
      let g = (verify_request_signature_iff c cfg now r cache).0 accepted in
      elim (Bool-cases (is_outside_window cfg later again.extracted.ts_num)) [
        | inl outside ↦ inl (verify_outside later again _ outside)
        | inr inside ↦
            let early = inside_window cfg later again.extracted.ts_num inside in
            inr (
              verify_retained later again (now + cfg.nonce_ttl_ms) (0 + length calls) _ inside
                (omega (arith, g.not_early))
                (rw same_nonce (
                  run-Retains c cfg r.extracted.nonce (now + cfg.nonce_ttl_ms) 0 calls _
                    (omega arith) (All-mono calls (λ call before. omega (arith, g.not_early)) order)
                    (verify_accepted-Retains now r cache g))))
      ]
