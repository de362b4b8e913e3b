-- ===== src/Cache/Single.antt =====
-- The refreshes of backend/src/cache.js that are in flight are the calls of the fetch function.
use stellar_royalty_splitter.Prelude.{
  ℕ, ◌≡◌, refl, sym, ap, ◌∙◌, inl, inr, String, false, Option, none, some, List, [], ◌∷◌, ◌++◌,
  ◌==◌, Key, string_eq, if◌then◌else◌, leb, count_if, Bool-cases, arith,
}
use stellar_royalty_splitter.Prelude.Map.{Map, get, has, set, delete, IsValid}
use stellar_royalty_splitter.Prelude.Map.Laws.{set-IsValid, delete-IsValid}
use stellar_royalty_splitter.Cache.{
  Config, Entry, Cache, cache_set, refresh_contract, cache_get, serve, is_warming, without_first,
  settle, refresh_settled, record_access, Event, gets, refreshes, accesses, sets, answered, passes,
  configures, resets, World, step, run,
}

module _ {ℓ κ} {K : Type ℓ} {V : Type κ} ⦃e : Key K⦄ where
  set-absent : (k : K) (v : V) (m : Map K V) → has k m ≡ false → set k v m ≡ m ++ ((k, v) ∷ [])
  unfolding set has
  set-absent k v [] h = refl
  set-absent k v ((j, w) ∷ m) h = ground (arith, set-absent k v m)

  delete-absent : (k : K) (m : Map K V) → get k m ≡ none → delete k m ≡ m
  unfolding get delete
  delete-absent k [] h = refl
  delete-absent k ((j, w) ∷ m) h = ground (arith, delete-absent k m)

  count-absent : (k : K) (m : Map K V) → get k m ≡ none → count_if (λ call. call.0 == k) m ≡ 0
  unfolding get
  count-absent k [] h = refl
  count-absent k ((j, w) ∷ m) h = ground (arith, count-absent k m)

  count-has :
      (k : K) (m : Map K V)
      → IsValid m
      → count_if (λ call. call.0 == k) m ≡ (if has k m then 1 else 0)
  unfolding has
  count-has k [] valid = refl
  count-has k ((j, w) ∷ m) valid =
      ground (arith, e.same_iff j k, count-has k m valid.1, count-absent k m)

without_first-delete :
    (key : String) (m : Map String ℕ) → IsValid m → without_first key m ≡ delete key m
unfolding delete
without_first-delete key [] valid = refl
without_first-delete key ((j, start) ∷ m) valid =
    ground
      (arith, string_eq.same_iff j key, without_first-delete key m valid.1, delete-absent key m)

abbrev IsSingle : {V : Type 0} → Cache V → Type 0
IsSingle c = (c.fetching ≡ c.refresh_in_flight) × IsValid c.refresh_in_flight

module _ {V : Type 0} where
  refresh_contract-IsSingle :
      (key : String) (now : ℕ) (c : Cache V) → IsSingle c → IsSingle (refresh_contract key now c)
  unfolding refresh_contract
  refresh_contract-IsSingle key now c (same, valid) = elim (Bool-cases c.is_configured) [
    | inr h ↦ rw h (same, valid)
    | inl h ↦ elim (Bool-cases (has key c.refresh_in_flight)) [
      | inl flying ↦ rw (h, flying) (same, valid)
      | inr free ↦
          rw (h, free)
            (
              ap (λ calls. calls ++ ((key, now) ∷ [])) same
                  ∙ sym (set-absent key now c.refresh_in_flight free),
              set-IsValid key now c.refresh_in_flight valid,
            )
    ]
  ]

  serve-IsSingle :
      (cfg : Config) (key : String) (now : ℕ) (found : Option (Entry V)) (c : Cache V)
      → IsSingle c
      → IsSingle (serve cfg key now found c).1
  serve-IsSingle cfg key now none c single = single
  serve-IsSingle cfg key now (some entry) c single = elim (Bool-cases (leb entry.expires_at now)) [
    | inl h ↦ rw h single
    | inr h ↦ elim (Bool-cases (is_warming cfg now entry)) [
      | inr cold ↦ rw (h, cold) single
      | inl warm ↦ elim (Bool-cases (has key c.refresh_in_flight)) [
        | inl flying ↦ rw (h, warm, flying) single
        | inr free ↦ rw (h, warm, free) (refresh_contract-IsSingle key now c single)
      ]
    ]
  ]

  settle-IsSingle :
      (cfg : Config) (key : String) (answer : Option V) (call : Option ℕ) (now : ℕ) (c : Cache V)
      → IsSingle c
      → IsSingle (settle cfg key answer call now c)
  unfolding cache_set
  settle-IsSingle cfg key answer none now c single = single
  settle-IsSingle cfg key none (some start) now c (same, valid) = (
    ap (without_first key) same ∙ without_first-delete key c.refresh_in_flight valid,
    delete-IsValid key c.refresh_in_flight valid,
  )
  settle-IsSingle cfg key (some value) (some start) now c (same, valid) = (
    ap (without_first key) same ∙ without_first-delete key c.refresh_in_flight valid,
    delete-IsValid key c.refresh_in_flight valid,
  )

  step-IsSingle :
      (cfg : Config) (event : Event V) (w : World V)
      → IsSingle w.cache
      → IsSingle (step cfg event w).cache
  unfolding step cache_get refresh_settled cache_set record_access
  step-IsSingle cfg (gets key) w single =
      serve-IsSingle cfg key w.now (get key w.cache.cache_store) w.cache single
  step-IsSingle cfg (refreshes key) w single = refresh_contract-IsSingle key w.now w.cache single
  step-IsSingle cfg (accesses key) w single = single
  step-IsSingle cfg (sets key value ttl_ms) w single = single
  step-IsSingle cfg (answered key answer) w single =
      settle-IsSingle cfg key answer (get key w.cache.fetching) w.now w.cache single
  step-IsSingle cfg (passes ms) w single = single
  step-IsSingle cfg configures w single = single
  step-IsSingle cfg resets w single = single

  run-IsSingle :
      (cfg : Config) (events : List (Event V)) (w : World V)
      → IsSingle w.cache
      → IsSingle (run cfg events w).cache
  unfolding run
  run-IsSingle cfg [] w single = single
  run-IsSingle cfg (event ∷ events) w single =
      run-IsSingle cfg events (step cfg event w) (step-IsSingle cfg event w single)

  -- Whatever reads, writes, refreshes, answers and waits follow on a cache without refreshes: exactly
  -- one call of the fetch function is open for a key that is in flight, and none for any other key.
  pub run_fetches_once :
      (cfg : Config) (events : List (Event V)) (w : World V) (key : String)
      → w.cache.fetching ≡ []
      → w.cache.refresh_in_flight ≡ []
      → let after = (run cfg events w).cache in
        count_if (λ call. call.0 == key) after.fetching
        ≡ (if has key after.refresh_in_flight then 1 else 0)
  run_fetches_once cfg events w key idle free =
      let start : IsSingle w.cache = rw free (idle, tt) in
      let (same, valid) = run-IsSingle cfg events w start in
      ap (count_if (λ call. call.0 == key)) same
      ∙ count-has key (run cfg events w).cache.refresh_in_flight valid
