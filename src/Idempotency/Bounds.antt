-- ===== src/Idempotency/Bounds.antt =====
-- The size of the idempotency cache, its distinct keys, and the statistics.
use stellar_royalty_splitter.Prelude.{
  ◌-◌, ℕ, suc, ◌+◌, ◌≤◌, ◌≡◌, String, Bool, List, [], ◌∷◌, arith, length, count_if, length-keep,
  string_eq, ltb,
}
use stellar_royalty_splitter.Prelude.Map.{delete, IsValid}
use stellar_royalty_splitter.Prelude.Map.Laws.{
  length-delete, length-delete_first, length-set, set-IsValid, delete-IsValid, delete_first-IsValid,
  keep-IsValid,
}
use stellar_royalty_splitter.Idempotency.{
  Config, Response, Entry, Cache, Action, status, json, Exchange, is_live, cleanup_expired_entries,
  evict_oldest_if_needed, get_cached_response, cache_response, perform, perform_all, respond,
  get_cache_stats,
}

-- The cache has room for what it holds, and no key stands twice.
pub record IsBounded {B : Type 0} (cfg : Config) (cache : Cache B) : Type 0 where
  pub room : length cache ≤ cfg.max_entries
  pub distinct : IsValid cache

module _ {B : Type 0} (cfg : Config) (positive : 1 ≤ cfg.max_entries) where
  length-evict :
      (cache : Cache B)
      → length cache ≤ cfg.max_entries
      → suc (length (evict_oldest_if_needed cfg cache)) ≤ cfg.max_entries
  unfolding evict_oldest_if_needed
  length-evict cache h = ground (arith, length-delete_first cache (cfg.max_entries - 1))

  evict-IsValid : (cache : Cache B) → IsValid cache → IsValid (evict_oldest_if_needed cfg cache)
  unfolding evict_oldest_if_needed
  evict-IsValid cache h = ground (arith, delete_first-IsValid cache h)

  pub cache_response-IsBounded :
      (now : ℕ) (key : String) (response : Response B) (cache : Cache B)
      → IsBounded cfg cache
      → IsBounded cfg (cache_response cfg now key response cache)
  unfolding cache_response
  cache_response-IsBounded now key response cache h =
      let entry : Entry B = record { response = response; expires_at = now + cfg.ttl_ms } in
      let evicted = evict_oldest_if_needed cfg cache in
      record {
        room = omega (arith, length-evict cache h.room, length-set key entry evicted);
        distinct = set-IsValid key entry evicted (evict-IsValid cache h.distinct);
      }

  perform-IsBounded :
      (now : ℕ) (key : String) (a : Action B) (x : Exchange B)
      → IsBounded cfg x.cache
      → IsBounded cfg (perform cfg now key a x).cache
  unfolding perform
  perform-IsBounded now key (status code) x h = h
  perform-IsBounded now key (json body) x h =
      let response : Response B = record { status = x.status_code; body = body } in
      ground (arith, cache_response-IsBounded now key response x.cache h)

  perform_all-IsBounded :
      (now : ℕ) (key : String) (actions : List (Action B)) (x : Exchange B)
      → IsBounded cfg x.cache
      → IsBounded cfg (perform_all cfg now key actions x).cache
  unfolding perform_all
  perform_all-IsBounded now key [] x h = h
  perform_all-IsBounded now key (a ∷ rest) x h =
      perform_all-IsBounded now key rest (perform cfg now key a x) (perform-IsBounded now key a x h)

  -- Whatever the handler sends, and however often, the cache holds at most `max_entries` entries
  -- afterwards, under distinct keys, if it did before and `max_entries` is at least 1.
  pub respond-IsBounded :
      (now : ℕ) (key : String) (actions : List (Action B)) (cache : Cache B)
      → IsBounded cfg cache
      → IsBounded cfg (respond cfg now key actions cache).cache
  unfolding respond
  respond-IsBounded now key actions cache h = perform_all-IsBounded now key actions _ h

module _ {B : Type 0} (cfg : Config) where
  pub delete-IsBounded :
      (key : String) (cache : Cache B) → IsBounded cfg cache → IsBounded cfg (delete key cache)
  delete-IsBounded key cache h = record {
    room = omega (arith, h.room, length-delete key cache);
    distinct = delete-IsValid key cache h.distinct;
  }

  -- A lookup, and the timer's cleanup, keep the bound.
  pub get_cached_response-IsBounded :
      (now : ℕ) (key : String) (cache : Cache B)
      → IsBounded cfg cache
      → IsBounded cfg (get_cached_response now key cache).1
        × IsBounded cfg (cleanup_expired_entries now cache)
  unfolding get_cached_response cleanup_expired_entries
  get_cached_response-IsBounded now key cache h = (
    ground (arith, delete-IsBounded key cache h),
    record {
      room = omega (arith, h.room, length-keep (is_live now) cache);
      distinct = keep-IsValid (is_live now) cache h.distinct;
    },
  )

count_if-le {ℓ} : {A : Type ℓ} (p : A → Bool) (xs : List A) → count_if p xs ≤ length xs
count_if-le p [] = omega arith
count_if-le p (x ∷ xs) = ground (arith, count_if-le p xs)

length-cleanup :
    {B : Type 0} (now : ℕ) (cache : Cache B)
    → length (cleanup_expired_entries now cache) + count_if (λ e. ltb e.1.expires_at now) cache
      ≡ length cache
unfolding cleanup_expired_entries
length-cleanup now [] = omega arith
length-cleanup now (e ∷ cache) = ground (arith, length-cleanup now cache)

-- The statistics account for every entry: the active ones are exactly those that a cleanup at the
-- same time would leave, and with the expired ones they make up the size.
pub get_cache_stats_counts :
    {B : Type 0} (cfg : Config) (now : ℕ) (cache : Cache B)
    → let s = get_cache_stats cfg now cache in
      (s.active ≡ length (cleanup_expired_entries now cache))
      × (s.active + s.expired ≡ s.size)
      × (s.size ≡ length cache)
unfolding get_cache_stats
get_cache_stats_counts cfg now cache =
    omega (arith, length-cleanup now cache, count_if-le (λ e. ltb e.1.expires_at now) cache)
