-- ===== src/Idempotency.antt =====
-- backend/src/idempotency.js: the cache of responses behind the `Idempotency-Key` header. The clock
-- readings are arguments; a response body is a value of any type `B`. Log lines are left out.
pub mod Bounds
pub mod Replay
pub mod Races
mod Tests
use stellar_royalty_splitter.Prelude.{
  ℕ, suc, ◌+◌, ◌-◌, String, Bool, true, false, ◌&&◌, Option, none, some, List, [], ◌∷◌, ltb, leb,
  ◌==◌, string_eq, if◌then◌else◌, length, keep, count_if, all, not,
}
use stellar_royalty_splitter.Prelude.Map.{Map, get, set, delete, delete_first}
use stellar_royalty_splitter.Prelude.Text.{codes, is_token_char}

-- `CACHE_TTL_MS` and `MAX_ENTRIES`, as read from the environment.
pub record Config : Type 0 where
  pub ttl_ms : ℕ
  pub max_entries : ℕ

-- The defaults: 24 hours, 10000 entries.
abbrev pub default_config : Config
default_config = record { ttl_ms = 86400000; max_entries = 10000 }

pub record Response (B : Type 0) : Type 0 where
  pub status : ℕ
  pub body : B

pub record Entry (B : Type 0) : Type 0 where
  pub response : Response B
  pub expires_at : ℕ

abbrev pub Cache : Type 0 → Type 0
Cache B = Map String (Entry B)

-- The negation of `entry.expiresAt < now`.
abbrev pub is_live : {B : Type 0} → ℕ → String × Entry B → Bool
is_live now e = not (ltb e.1.expires_at now)

-- `cleanupExpiredEntries`, run by a timer.
unfoldable pub cleanup_expired_entries : {B : Type 0} → ℕ → Cache B → Cache B
cleanup_expired_entries now cache = keep (is_live now) cache

unfoldable pub evict_oldest_if_needed : {B : Type 0} → Config → Cache B → Cache B
evict_oldest_if_needed cfg cache =
    if leb cfg.max_entries (length cache) then delete_first cache else cache

-- An expired entry is removed by the lookup that finds it.
unfoldable pub get_cached_response :
    {B : Type 0} → ℕ → String → Cache B → Option (Response B) × Cache B
get_cached_response now key cache = elim (get key cache) [
  | none ↦ (none, cache)
  | some entry ↦
      if ltb entry.expires_at now then (none, delete key cache) else (some entry.response, cache)
]

unfoldable pub cache_response : {B : Type 0} → Config → ℕ → String → Response B → Cache B → Cache B
unfolding evict_oldest_if_needed
cache_response cfg now key response cache =
    set key (record { response = response; expires_at = now + cfg.ttl_ms })
      (evict_oldest_if_needed cfg cache)

-- `/^[a-zA-Z0-9_-]{1,255}$/`
unfoldable pub is_key : String → Bool
is_key key =
    all is_token_char (codes key) && (leb 1 (length (codes key)) && leb (length (codes key)) 255)

-- What the wrapped handler does with the response: `res.status(code)` and `res.json(body)`.
pub data Action (B : Type 0) : Type 0 where
  status : ℕ → Action B
  json : B → Action B

-- The two overridden methods: the closure's `statusCode`, the cache, and what was sent so far.
pub record Exchange (B : Type 0) : Type 0 where
  pub status_code : ℕ
  pub cache : Cache B
  pub sent : List (Response B)

unfoldable pub perform : {B : Type 0} → Config → ℕ → String → Action B → Exchange B → Exchange B
perform cfg now key (status code) x = record x { status_code = code }
perform cfg now key (json body) x =
    let response : Response _ = record { status = x.status_code; body = body } in
    record x {
      cache =
          if leb 200 x.status_code && ltb x.status_code 300
          then cache_response cfg now key response x.cache
          else x.cache;
      sent = response ∷ x.sent;
    }

unfoldable pub perform_all :
    {B : Type 0} → Config → ℕ → String → List (Action B) → Exchange B → Exchange B
unfolding perform
perform_all cfg now key [] x = x
perform_all cfg now key (a ∷ rest) x = perform_all cfg now key rest (perform cfg now key a x)

-- What the middleware decides when a request arrives.
pub data Arrival (B : Type 0) : Type 0 where
  skipped : Arrival B
  rejected : Arrival B
  replayed : Response B → Arrival B
  intercepted : String → Arrival B

look_up : {B : Type 0} → String → Option (Response B) × Cache B → Arrival B × Cache B
look_up key (none, cache) = (intercepted key, cache)
look_up key (some response, cache) = (replayed response, cache)

-- The part of `idempotencyMiddleware` up to `next()`. A missing or empty header skips it.
unfoldable pub arrive : {B : Type 0} → ℕ → Option String → Cache B → Arrival B × Cache B
unfolding look_up get_cached_response
arrive now none cache = (skipped, cache)
arrive now (some key) cache =
    if key == ""
    then (skipped, cache)
    else (if is_key key then look_up key (get_cached_response now key cache) else (rejected, cache))

-- The rest of it: what the handler does under the overridden `status` and `json`.
unfoldable pub respond : {B : Type 0} → Config → ℕ → String → List (Action B) → Cache B → Exchange B
unfolding perform_all
respond cfg now key actions cache =
    perform_all cfg now key actions (record { status_code = 200; cache = cache; sent = [] })

pub record Stats : Type 0 where
  pub size : ℕ
  pub expired : ℕ
  pub active : ℕ
  pub max_entries : ℕ
  pub ttl_ms : ℕ

unfoldable pub get_cache_stats : {B : Type 0} → Config → ℕ → Cache B → Stats
get_cache_stats cfg now cache =
    let expired = count_if (λ e. ltb e.1.expires_at now) cache in
    record {
      size = length cache;
      expired = expired;
      active = length cache - expired;
      max_entries = cfg.max_entries;
      ttl_ms = cfg.ttl_ms;
    }

unfoldable pub clear_cache : {B : Type 0} → Cache B → Cache B
clear_cache cache = []
