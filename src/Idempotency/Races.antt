-- ===== src/Idempotency/Races.antt =====
-- Two requests with one key that are both under way: the cache is filled only when a response is
-- sent, so the second is not held back.
use stellar_royalty_splitter.Prelude.{
  ℕ, ◌+◌, ◌≤◌, ◌<◌, ◌≡◌, refl, String, true, none, some, arith, string_eq, ==_self,
}
use stellar_royalty_splitter.Prelude.Map.{get}
use stellar_royalty_splitter.Prelude.Map.Laws.{get-set}
use stellar_royalty_splitter.Idempotency.{
  Config, Response, Cache, intercepted, arrive, respond, is_key, perform, cache_response,
}
use stellar_royalty_splitter.Idempotency.Replay.{is_key-ne_empty, answer, answering}

module _ {B : Type 0} (cfg : Config) (key : String) where
  -- A well-formed key that is not in the cache lets the request through to the handler.
  arrive_intercepts :
      (now : ℕ) (cache : Cache B)
      → is_key key ≡ true
      → get key cache ≡ none
      → arrive now (some key) cache ≡ (intercepted key, cache)
  unfolding arrive
  arrive_intercepts now cache wf fresh = ground (arith, is_key-ne_empty key)

  respond_stores :
      (sent_at code : ℕ) (body : B) (cache : Cache B)
      → 200 ≤ code
      → code < 300
      → (respond cfg sent_at key (answering cfg key code body) cache).cache
        ≡ cache_response cfg sent_at key (answer cfg key code body) cache
  unfolding respond perform
  respond_stores sent_at code body cache low high = ground arith

  get-cache_response :
      (sent_at : ℕ) (r : Response B) (cache : Cache B)
      → get key (cache_response cfg sent_at key r cache)
        ≡ some (record { response = r; expires_at = sent_at + cfg.ttl_ms })
  unfolding cache_response
  get-cache_response sent_at r cache = simp (get-set, ==_self)

  -- If a well-formed key is not in the cache, two requests with it that arrive before the first
  -- response both reach the handler. Once both have sent a 2xx response, the cache holds the one
  -- that was sent last.
  pub arrive_twice_intercepts :
      (first second first_sent second_sent code : ℕ) (a b : B) (cache : Cache B)
      → is_key key ≡ true
      → get key cache ≡ none
      → 200 ≤ code
      → code < 300
      → let (r₁, c₁) = arrive first (some key) cache in
        let (r₂, c₂) = arrive second (some key) c₁ in
        let after =
          respond cfg second_sent key
            (answering cfg key code b)
            (respond cfg first_sent key (answering cfg key code a) c₂).cache in
        (r₁ ≡ intercepted key)
        × (r₂ ≡ intercepted key)
        × (get key after.cache
            ≡ some (record {
              response = answer cfg key code b;
              expires_at = second_sent + cfg.ttl_ms;
            }))
  arrive_twice_intercepts first second first_sent second_sent code a b cache wf fresh low high =
      rw (arrive_intercepts first cache wf fresh, arrive_intercepts second cache wf fresh)
        (
          refl,
          refl,
          rw (respond_stores second_sent code b _ low high)
              (get-cache_response second_sent (answer cfg key code b) _),
        )
