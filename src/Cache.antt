-- ===== src/Cache.antt =====
-- The read cache: backend/src/cache.js. The two settings are arguments, and so is the clock, which does
-- not run backwards. The fetch function is asynchronous, as its comment says, so that what it raises
-- comes as a rejection later. The delays that spread the refreshes of a tick are events.
pub mod Single
pub mod Served
mod Tests
use stellar_royalty_splitter.Prelude.{
  ℕ, ◌+◌, ◌-◌, String, Bool, true, false, not, ◌&&◌, Option, none, some, List, [], ◌∷◌, ◌++◌, ◌==◌,
  string_eq, if◌then◌else◌, leb, ltb, take, or_else,
}
use stellar_royalty_splitter.Prelude.Map.{Map, get, has, set, delete}
use stellar_royalty_splitter.Prelude.Sorting.{sort}

pub record Config : Type 0 where
  pub ttl_ms : ℕ
  pub warm_lead_time_ms : ℕ

pub record Entry (V : Type 0) : Type 0 where
  pub value : V
  pub fetched_at : ℕ
  pub expires_at : ℕ

pub record Metrics : Type 0 where
  pub hits : ℕ
  pub misses : ℕ
  pub stale_serves : ℕ
  pub refresh_latency_ms : ℕ

-- A refresh in flight is given by its start. `fetching` holds the calls of the fetch function that are
-- not answered yet.
pub record Cache (V : Type 0) : Type 0 where
  pub cache_store : Map String (Entry V)
  pub refresh_in_flight : Map String ℕ
  pub access_count : Map String ℕ
  pub is_configured : Bool
  pub metrics : Metrics
  pub fetching : List (String × ℕ)

-- `configureCache`
abbrev pub configure_cache : {V : Type 0} → Cache V → Cache V
configure_cache c = record c { is_configured = true }

-- `cacheSet`
unfoldable pub cache_set : {V : Type 0} → String → V → ℕ → ℕ → Cache V → Cache V
cache_set key value ttl_ms now c = record c {
  cache_store =
      set key (record { value = value; fetched_at = now; expires_at = now + ttl_ms }) c.cache_store;
}

-- `refreshContract`
unfoldable pub refresh_contract : {V : Type 0} → String → ℕ → Cache V → Cache V
refresh_contract key now c =
    if not c.is_configured
    then c
    else (if has key c.refresh_in_flight then c else record c {
      refresh_in_flight = set key now c.refresh_in_flight;
      fetching = c.fetching ++ ((key, now) ∷ []);
    })

-- `WARMING_ENABLED`
abbrev pub warming_enabled : Config → Bool
warming_enabled cfg = ltb cfg.warm_lead_time_ms cfg.ttl_ms

abbrev pub missed : {V : Type 0} → Cache V → Cache V
missed c = record c { metrics = record c.metrics { misses = c.metrics.misses + 1 } }

abbrev pub served_stale : {V : Type 0} → Cache V → Cache V
served_stale c = record c {
  metrics = record c.metrics { stale_serves = c.metrics.stale_serves + 1 };
}

abbrev pub hit : {V : Type 0} → Cache V → Cache V
hit c = record c { metrics = record c.metrics { hits = c.metrics.hits + 1 } }

abbrev pub is_warming : {V : Type 0} → Config → ℕ → Entry V → Bool
is_warming cfg now entry = warming_enabled cfg && leb entry.expires_at (now + cfg.warm_lead_time_ms)

abbrev pub serve :
    {V : Type 0} → Config → String → ℕ → Option (Entry V) → Cache V → Option V × Cache V
serve cfg key now none c = (none, missed c)
serve cfg key now (some entry) c =
    if leb entry.expires_at now
    then (none, missed c)
    else (if is_warming cfg now entry
        then (
          some entry.value,
          served_stale (if has key c.refresh_in_flight then c else refresh_contract key now c),
        )
        else (some entry.value, hit c))

-- `cacheGet`
unfoldable pub cache_get : {V : Type 0} → Config → String → ℕ → Cache V → Option V × Cache V
unfolding refresh_contract
cache_get cfg key now c = serve cfg key now (get key c.cache_store) c

-- The first call for the key is answered.
abbrev pub without_first : String → List (String × ℕ) → List (String × ℕ)
without_first key [] = []
without_first key ((k, start) ∷ calls) =
    let rest = without_first key calls in if k == key then calls else (k, start) ∷ rest

abbrev pub stored_fresh : {V : Type 0} → Config → String → Option V → ℕ → ℕ → Cache V → Cache V
stored_fresh cfg key none start now c = c
stored_fresh cfg key (some value) start now c =
    let stored = cache_set key value cfg.ttl_ms now c in
    record stored {
      metrics = record stored.metrics {
        refresh_latency_ms = stored.metrics.refresh_latency_ms + (now - start);
      };
    }

abbrev pub settle : {V : Type 0} → Config → String → Option V → Option ℕ → ℕ → Cache V → Cache V
settle cfg key answer none now c = c
settle cfg key answer (some start) now c =
    let stored = stored_fresh cfg key answer start now c in
    record stored {
      refresh_in_flight = delete key stored.refresh_in_flight;
      fetching = without_first key stored.fetching;
    }

-- What `refreshContract` does when the fetch is answered, by a value or a rejection; nothing happens
-- if no call is open.
unfoldable pub refresh_settled : {V : Type 0} → Config → String → Option V → ℕ → Cache V → Cache V
unfolding cache_set
refresh_settled cfg key answer now c = settle cfg key answer (get key c.fetching) now c

-- `recordAccess`
unfoldable pub record_access : {V : Type 0} → String → Cache V → Cache V
record_access key c = record c {
  access_count = set key (or_else (get key c.access_count) 0 + 1) c.access_count;
}

-- The contracts that a tick of `startCacheWarmingScheduler` refreshes.
unfoldable pub to_refresh : {V : Type 0} → ℕ → List String → Cache V → List String
to_refresh batch_size contracts c = take batch_size (
    sort (λ a b. ltb (or_else (get b c.access_count) 0) (or_else (get a c.access_count) 0))
      contracts)

-- `resetMetrics`
abbrev pub reset_metrics : {V : Type 0} → Cache V → Cache V
reset_metrics c = record c {
  metrics = record { hits = 0; misses = 0; stale_serves = 0; refresh_latency_ms = 0 };
}

pub data Event (V : Type 0) : Type 0 where
  gets refreshes accesses : String → Event V
  sets : String → V → ℕ → Event V
  answered : String → Option V → Event V
  passes : ℕ → Event V
  configures resets : Event V

pub record World (V : Type 0) : Type 0 where
  pub cache : Cache V
  pub now : ℕ

unfoldable pub step : {V : Type 0} → Config → Event V → World V → World V
unfolding cache_set refresh_contract cache_get refresh_settled record_access
step cfg (gets key) w = record w { cache = (cache_get cfg key w.now w.cache).1 }
step cfg (refreshes key) w = record w { cache = refresh_contract key w.now w.cache }
step cfg (accesses key) w = record w { cache = record_access key w.cache }
step cfg (sets key value ttl_ms) w = record w { cache = cache_set key value ttl_ms w.now w.cache }
step cfg (answered key answer) w = record w { cache = refresh_settled cfg key answer w.now w.cache }
step cfg (passes ms) w = record w { now = w.now + ms }
step cfg configures w = record w { cache = configure_cache w.cache }
step cfg resets w = record w { cache = reset_metrics w.cache }

unfoldable pub run : {V : Type 0} → Config → List (Event V) → World V → World V
unfolding step
run cfg [] w = w
run cfg (event ∷ events) w = run cfg events (step cfg event w)
