-- ===== src/Cache/Tests.antt =====
-- An entry that is read in and behind the warming window.
use stellar_royalty_splitter.Prelude.{
  ℕ, ◌≡◌, refl, false, none, some, List, [], ◌∷◌, ◌==◌, string_eq, count_if, if◌then◌else◌,
}
use stellar_royalty_splitter.Prelude.Map.{get, has, set, delete}
use stellar_royalty_splitter.Prelude.Sorting.{sort, insert}
use stellar_royalty_splitter.Cache.{
  Config, cache_set, cache_get, refresh_contract, refresh_settled, record_access, to_refresh, Event,
  gets, sets, passes, configures, World, step, run,
}
use stellar_royalty_splitter.Cache.Served.{Served, cache_get-Served}
use stellar_royalty_splitter.Cache.Single.{run_fetches_once}

abbrev config : Config
config = record { ttl_ms = 60000; warm_lead_time_ms = 30000 }

abbrev empty : World ℕ
empty = record {
  cache = record {
    cache_store = [];
    refresh_in_flight = [];
    access_count = [];
    is_configured = false;
    metrics = record { hits = 0; misses = 0; stale_serves = 0; refresh_latency_ms = 0 };
    fetching = [];
  };
  now = 0;
}

-- Two reads in the window fetch once.
abbrev warm_reads : List (Event ℕ)
warm_reads = configures ∷ sets "C" 7 60000 ∷ passes 40000 ∷ gets "C" ∷ gets "C" ∷ []

cache_tests :
    ((run config warm_reads empty).cache.fetching ≡ ("C", 40000) ∷ [])
    × ((cache_get config "C" 40000 (run config warm_reads empty).cache).0 ≡ some 7)
    × ((cache_get config "C" 60000 (run config warm_reads empty).cache).0 ≡ none)
    × ((cache_get config "C" 60000
          (refresh_settled config "C" (some 8) 50000 (run config warm_reads empty).cache)).0
        ≡ some 8)
    × (to_refresh 1 ("A" ∷ "B" ∷ []) (record_access "B" empty.cache) ≡ "B" ∷ [])
unfolding run step cache_set cache_get refresh_contract refresh_settled record_access to_refresh
    sort insert get has set delete
cache_tests = (refl, refl, refl, refl, refl)

cache_get-Served_example :
    let c = (run config warm_reads empty).cache in
    Served config "C" 45000 7 (get "C" c.cache_store) c (cache_get config "C" 45000 c)
cache_get-Served_example = cache_get-Served config "C" 45000 7 (run config warm_reads empty).cache

run_fetches_once_example :
    let after = (run config warm_reads empty).cache in
    count_if (λ call. call.0 == "C") after.fetching
    ≡ (if has "C" after.refresh_in_flight then 1 else 0)
run_fetches_once_example = run_fetches_once config warm_reads empty "C" refl refl
