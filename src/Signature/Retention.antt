-- ===== src/Signature/Retention.antt =====
-- How long an accepted nonce stays in the nonce cache while other requests are verified.
use stellar_royalty_splitter.Prelude.{
  ℕ, suc, ◌+◌, ◌<◌, ◌≡◌, String, true, false, List, [], ◌∷◌, arith, length, All, string_eq, leb,
  Bool-cases, inl, inr, ◌==◌, eq_of_==,
}
use native.Mathlib.Nat.{add-zero, add-suc, suc-add}
use stellar_royalty_splitter.Prelude.Map.{delete_first}
use stellar_royalty_splitter.Prelude.Map.Retention.{
  Retains, get_of_Retains, Retains-set, Retains-delete_first, Retains-keep, Retains-suc,
}
use stellar_royalty_splitter.Signature.{
  Config, Crypto, NonceCache, Signed, Checked, ok, error, is_fresh, evict_expired, is_nonce_seen,
  record_nonce, record_if_ok, is_outside_window, verify_signature, verify_request_signature,
}

-- A call of `verifyRequestSignature` and the time at which it is made.
pub record Call : Type 0 where
  pub at : ℕ
  pub signed : Signed

-- The nonce cache after a sequence of calls.
pub run : Crypto → Config → List Call → NonceCache → NonceCache
run c cfg [] cache = cache
run c cfg (call ∷ rest) cache =
    run c cfg rest (verify_request_signature c cfg call.at call.signed cache).1

module _ (c : Crypto) (cfg : Config) (nonce : String) (expires_at : ℕ) where
  evict_expired-Retains :
      (n now : ℕ) (cache : NonceCache)
      → now < expires_at
      → Retains nonce expires_at n cache
      → Retains nonce expires_at n (evict_expired now cache)
  unfolding evict_expired
  evict_expired-Retains n now cache live h =
      Retains-keep nonce expires_at (is_fresh now) n cache (λ j _. ground arith) h

  record_nonce-Retains :
      (n now : ℕ) (other : String) (cache : NonceCache)
      → now < expires_at
      → suc n < cfg.nonce_max_entries
      → (other == nonce) ≡ false
      → Retains nonce expires_at n cache
      → Retains nonce expires_at (suc n) (record_nonce cfg now other cache)
  unfolding record_nonce
  record_nonce-Retains n now other cache live room ne h =
      let cache' = evict_expired now cache in
      let kept = evict_expired-Retains n now cache live h in
      elim (Bool-cases (leb cfg.nonce_max_entries (length cache'))) [
        | inl full ↦ rw full (
            Retains-set nonce expires_at n other _ (delete_first cache') ne
              (Retains-delete_first nonce expires_at n cache' (ground arith) kept))
        | inr space ↦ rw space (Retains-set nonce expires_at n other _ cache' ne kept)
      ]

  record_if_ok-Retains :
      (n now : ℕ) (other : String) (cache : NonceCache) (result : Checked (Unit {0}))
      → now < expires_at
      → suc n < cfg.nonce_max_entries
      → (other == nonce) ≡ false
      → Retains nonce expires_at n cache
      → Retains nonce expires_at (suc n) (record_if_ok cfg now other cache result).1
  unfolding record_if_ok
  record_if_ok-Retains n now other cache (ok u) live room ne h =
      record_nonce-Retains n now other cache live room ne h
  record_if_ok-Retains n now other cache (error f) live room ne h =
      Retains-suc nonce expires_at n cache h

  -- While it is remembered, a nonce is seen.
  pub is_nonce_seen-Retains :
      (n now : ℕ) (cache : NonceCache)
      → now < expires_at
      → Retains nonce expires_at n cache
      → is_nonce_seen now nonce cache ≡ (true, evict_expired now cache)
  unfolding is_nonce_seen
  is_nonce_seen-Retains n now cache live h = ground (
    arith,
    get_of_Retains nonce expires_at n (evict_expired now cache)
        (evict_expired-Retains n now cache live h),
  )

  verify-Retains_inside :
      (n now : ℕ) (r : Signed) (cache : NonceCache)
      → now < expires_at
      → suc n < cfg.nonce_max_entries
      → Retains nonce expires_at n cache
      → is_outside_window cfg now r.extracted.ts_num ≡ false
      → Retains nonce expires_at (suc n) (verify_request_signature c cfg now r cache).1
  unfolding verify_request_signature is_nonce_seen
  verify-Retains_inside n now r cache live room h inside =
      let cache' = evict_expired now cache in
      let kept = evict_expired-Retains n now cache live h in
      elim (Bool-cases (r.extracted.nonce == nonce)) [
        | inl same ↦ ground (
          arith,
          get_of_Retains nonce expires_at n cache' kept,
          eq_of_== r.extracted.nonce nonce same,
          Retains-suc nonce expires_at n cache' kept,
        )
        | inr other ↦ ground (
          arith,
          Retains-suc nonce expires_at n cache' kept,
          record_if_ok-Retains n now r.extracted.nonce cache' (verify_signature c r) live room other
              kept,
        )
      ]

  verify-Retains :
      (n now : ℕ) (r : Signed) (cache : NonceCache)
      → now < expires_at
      → suc n < cfg.nonce_max_entries
      → Retains nonce expires_at n cache
      → Retains nonce expires_at (suc n) (verify_request_signature c cfg now r cache).1
  unfolding verify_request_signature
  verify-Retains n now r cache live room h =
      elim (Bool-cases (is_outside_window cfg now r.extracted.ts_num)) [
        | inl outside ↦ rw outside (Retains-suc nonce expires_at n cache h)
        | inr inside ↦ verify-Retains_inside n now r cache live room h inside
      ]

  pub run-Retains :
      (n : ℕ) (calls : List Call) (cache : NonceCache)
      → n + length calls < cfg.nonce_max_entries
      → All (λ call. call.at < expires_at) calls
      → Retains nonce expires_at n cache
      → Retains nonce expires_at (n + length calls) (run c cfg calls cache)
  unfolding run
  run-Retains n [] cache room live h = rw (add-zero n) h
  run-Retains n (call ∷ rest) cache room live h =
      rw (add-suc n (length rest), ← suc-add n (length rest))
        (run-Retains (suc n) rest (verify_request_signature c cfg call.at call.signed cache).1
          (omega arith) live.1 (verify-Retains n call.at call.signed cache live.0 (omega arith) h))
