-- ===== src/Idempotency/Replay.antt =====
-- A stored response is replayed until it expires or newer responses fill the cache.
use mathlib.Core.Path.{subst}
use stellar_royalty_splitter.Prelude.{
  ℕ, suc, ◌+◌, ◌≤◌, ◌<◌, ◌≡◌, String, true, false, List, [], ◌∷◌, arith, string_eq, Option, none,
  some, All, ◌==◌, Bool-cases, inl, inr, ◌⊎◌, eq_of_==,
}
use native.Mathlib.Nat.{add-zero, add-suc, suc-add, add_assoc}
use stellar_royalty_splitter.Prelude.Map.{get}
use stellar_royalty_splitter.Prelude.Map.Laws.{get-delete_first-none}
use stellar_royalty_splitter.Prelude.Map.Retention.{
  Retains, get_of_Retains, Retains-set_self, Retains-set, Retains-delete, Retains-delete_first,
  Retains-keep, Retains-suc,
}
use stellar_royalty_splitter.Idempotency.{
  Config, Response, Entry, Cache, Action, status, json, Exchange, replayed, is_live,
  cleanup_expired_entries, evict_oldest_if_needed, cache_response, perform, perform_all, arrive,
  respond, is_key,
}

-- What happens to the cache between two requests.
pub data Event (B : Type 0) : Type 0 where
  arrival : ℕ → Option String → Event B
  response : ℕ → String → List (Action B) → Event B
  cleanup : ℕ → Event B

pub step : {B : Type 0} → Config → Event B → Cache B → Cache B
step cfg (arrival now key) cache = (arrive now key cache).1
step cfg (response now key actions) cache = (respond cfg now key actions cache).cache
step cfg (cleanup now) cache = cleanup_expired_entries now cache

pub run : {B : Type 0} → Config → List (Event B) → Cache B → Cache B
unfolding step
run cfg [] cache = cache
run cfg (ev ∷ rest) cache = run cfg rest (step cfg ev cache)

-- How many bodies are sent, so how many entries are stored at most.
abbrev pub bodies : {B : Type 0} → List (Action B) → ℕ
bodies [] = 0
bodies (status code ∷ rest) = bodies rest
bodies (json body ∷ rest) = suc (bodies rest)

abbrev pub stored : {B : Type 0} → Event B → ℕ
stored (response now key actions) = bodies actions
stored _ = 0

abbrev pub stores : {B : Type 0} → List (Event B) → ℕ
stores [] = 0
stores (ev ∷ rest) = stored ev + stores rest

-- The event happens no later than `limit`, and stores nothing under `key`.
abbrev pub Spares : {B : Type 0} → String → ℕ → Event B → Type 0
Spares key limit (arrival now header) = now ≤ limit
Spares key limit (response now other actions) = (other == key) ≡ false
Spares key limit (cleanup now) = now ≤ limit

pub is_key-ne_empty : (key : String) → is_key key ≡ true → (key == "") ≡ false
unfolding is_key
is_key-ne_empty key h = elim (Bool-cases (key == "")) [
  | inl empty ↦ absurd (cc (subst (λ s. is_key s ≡ true) (eq_of_== key "" empty) h))
  | inr other ↦ other
]

module _ {B : Type 0} (cfg : Config) (key : String) (entry : Entry B) where
  evict-Retains :
      (n : ℕ) (cache : Cache B)
      → suc n < cfg.max_entries
      → Retains key entry n cache
      → Retains key entry n (evict_oldest_if_needed cfg cache)
  unfolding evict_oldest_if_needed
  evict-Retains n cache room h = ground (arith, Retains-delete_first key entry n cache)

  cache_response-Retains :
      (n now : ℕ) (other : String) (r : Response B) (cache : Cache B)
      → suc n < cfg.max_entries
      → (other == key) ≡ false
      → Retains key entry n cache
      → Retains key entry (suc n) (cache_response cfg now other r cache)
  unfolding cache_response
  cache_response-Retains n now other r cache room ne h =
      Retains-set key entry n other _ (evict_oldest_if_needed cfg cache) ne
        (evict-Retains n cache room h)

  perform-Retains_json :
      (n now : ℕ) (other : String) (body : B) (x : Exchange B)
      → suc n < cfg.max_entries
      → (other == key) ≡ false
      → Retains key entry n x.cache
      → Retains key entry (suc n) (perform cfg now other (json body) x).cache
  unfolding perform
  perform-Retains_json n now other body x room ne h =
      let r : Response B = record { status = x.status_code; body = body } in
      ground (arith, cache_response-Retains n now other r x.cache, Retains-suc key entry n x.cache)

  perform_all-Retains :
      (n now : ℕ) (other : String) (actions : List (Action B)) (x : Exchange B)
      → n + bodies actions < cfg.max_entries
      → (other == key) ≡ false
      → Retains key entry n x.cache
      → Retains key entry (n + bodies actions) (perform_all cfg now other actions x).cache
  unfolding perform_all perform
  perform_all-Retains n now other [] x room ne h = rw (add-zero n) h
  perform_all-Retains n now other (status code ∷ rest) x room ne h =
      perform_all-Retains n now other rest (perform cfg now other (status code) x) room ne h
  perform_all-Retains n now other (json body ∷ rest) x room ne h =
      let x' = perform cfg now other (json body) x in
      rw (add-suc n (bodies rest), ← suc-add n (bodies rest))
        (perform_all-Retains (suc n) now other rest x' (omega arith) ne
          (perform-Retains_json n now other body x (omega arith) ne h))

  arrive-Retains :
      (n now : ℕ) (header : Option String) (cache : Cache B)
      → now ≤ entry.expires_at
      → Retains key entry n cache
      → Retains key entry n (arrive now header cache).1
  unfolding arrive
  arrive-Retains n now none cache live h = h
  arrive-Retains n now (some k) cache live h = elim (Bool-cases (k == key)) [
    | inl same ↦ rw (eq_of_== k key same) (ground (arith, get_of_Retains key entry n cache h))
    | inr other ↦ ground (arith, Retains-delete key entry n k cache other h)
  ]

  step-Retains :
      (n : ℕ) (ev : Event B) (cache : Cache B)
      → n + stored ev < cfg.max_entries
      → Spares key entry.expires_at ev
      → Retains key entry n cache
      → Retains key entry (n + stored ev) (step cfg ev cache)
  unfolding step respond cleanup_expired_entries
  step-Retains n (arrival now header) cache room spares h =
      rw (add-zero n) (arrive-Retains n now header cache spares h)
  step-Retains n (response now other actions) cache room spares h =
      perform_all-Retains n now other actions _ room spares h
  step-Retains n (cleanup now) cache room spares h =
      rw (add-zero n) (Retains-keep key entry (is_live now) n cache (λ j _. ground arith) h)

  run-Retains :
      (n : ℕ) (events : List (Event B)) (cache : Cache B)
      → n + stores events < cfg.max_entries
      → All (Spares key entry.expires_at) events
      → Retains key entry n cache
      → Retains key entry (n + stores events) (run cfg events cache)
  unfolding run
  run-Retains n [] cache room spares h = rw (add-zero n) h
  run-Retains n (ev ∷ rest) cache room spares h = rw (← add_assoc n (stored ev) (stores rest)) (
      run-Retains (n + stored ev) rest (step cfg ev cache) (omega arith) spares.1
        (step-Retains n ev cache (omega arith) spares.0 h))

evict-get-none :
    {B : Type 0} (cfg : Config) (key : String) (cache : Cache B)
    → get key cache ≡ none
    → get key (evict_oldest_if_needed cfg cache) ≡ none
unfolding evict_oldest_if_needed
evict-get-none cfg key cache h = ground (arith, get-delete_first-none key cache)

module _ {B : Type 0} (cfg : Config) (key : String) (code : ℕ) (body : B) where
  -- The response that the handler sends by `res.status(code).json(body)`.
  abbrev pub answer : Response B
  answer = record { status = code; body = body }

  abbrev pub answering : List (Action B)
  answering = status code ∷ json body ∷ []

  respond-Retains :
      (sent_at : ℕ) (cache : Cache B)
      → 200 ≤ code
      → code < 300
      → get key cache ≡ none
      → Retains key
          (record { response = answer; expires_at = sent_at + cfg.ttl_ms })
          0
          (respond cfg sent_at key answering cache).cache
  unfolding respond perform cache_response
  respond-Retains sent_at cache low high fresh = ground (
    arith,
    Retains-set_self key (record { response = answer; expires_at = sent_at + cfg.ttl_ms })
        (evict_oldest_if_needed cfg cache) (evict-get-none cfg key cache fresh),
  )

  -- A 2xx response is replayed: after the handler has answered a request whose key is well formed
  -- and not in the cache, the next request with that key gets the same status and body, and the
  -- handler is not run. Before it there may be any lookups and cleanups no later than the expiry,
  -- and responses under other keys that send fewer bodies than the cache has places.
  pub arrive_replays :
      (sent_at now : ℕ) (events : List (Event B)) (cache : Cache B)
      → is_key key ≡ true
      → 200 ≤ code
      → code < 300
      → get key cache ≡ none
      → stores events < cfg.max_entries
      → All (Spares key (sent_at + cfg.ttl_ms)) events
      → now ≤ sent_at + cfg.ttl_ms
      → let later = run cfg events (respond cfg sent_at key answering cache).cache in
        arrive now (some key) later ≡ (replayed answer, later)
  unfolding arrive
  arrive_replays sent_at now events cache wf low high fresh room spares live =
      let entry : Entry B = record { response = answer; expires_at = sent_at + cfg.ttl_ms } in
      let stays =
        run-Retains cfg key entry 0 events _ (omega arith) spares
          (respond-Retains sent_at cache low high fresh) in
      ground (arith, get_of_Retains key entry (0 + stores events) _ stays, is_key-ne_empty key)

  -- Any other response is sent and not stored: the cache is left as it was, so that the next
  -- request with the key runs the handler again.
  pub respond_error_not_stored :
      (sent_at : ℕ) (cache : Cache B)
      → (code < 200) ⊎ (300 ≤ code)
      → let x = respond cfg sent_at key answering cache in
        (x.cache ≡ cache) × (x.sent ≡ answer ∷ [])
  unfolding respond perform
  respond_error_not_stored sent_at cache h = ground arith
