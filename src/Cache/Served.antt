-- ===== src/Cache/Served.antt =====
-- What `cacheGet` of backend/src/cache.js answers and counts.
use stellar_royalty_splitter.Prelude.{
  ℕ, suc, ◌+◌, ◌≤◌, ◌<◌, ◌≡◌, ◌↔◌, ◌⊎◌, refl, ap, ◌∙◌, inl, inr, String, true, false, Option, none,
  some, string_eq, leb, Bool-cases, arith, or_else,
}
use stellar_royalty_splitter.Prelude.Map.{get, has}
use stellar_royalty_splitter.Cache.{
  Config, Entry, Metrics, Cache, refresh_contract, cache_get, serve, is_warming,
}

abbrev pub gets_counted : Metrics → ℕ
gets_counted m = m.hits + m.misses + m.stale_serves

module _ {V : Type 0} (cfg : Config) (key : String) (now : ℕ) where
  -- A refresh touches neither the entries nor the counts.
  refresh_contract_lem :
      (c : Cache V)
      → let after = refresh_contract key now c in
        (after.cache_store ≡ c.cache_store) × (after.metrics ≡ c.metrics)
  unfolding refresh_contract
  refresh_contract_lem c = elim (Bool-cases c.is_configured) [
    | inr h ↦ rw h (refl, refl)
    | inl h ↦ elim (Bool-cases (has key c.refresh_in_flight)) [
      | inl flying ↦ rw (h, flying) (refl, refl)
      | inr free ↦ rw (h, free) (refl, refl)
    ]
  ]

  -- What the answer is, what is kept and counted, and when a refresh starts.
  abbrev pub Served : V → Option (Entry V) → Cache V → Option V × Cache V → Type 0
  Served value found c result =
      ((result.0 ≡ some value) ↔ (
        (entry : Entry V) × (found ≡ some entry)
        × (now < entry.expires_at)
        × (entry.value ≡ value)))
      × (result.1.cache_store ≡ c.cache_store)
      × (gets_counted result.1.metrics ≡ suc (gets_counted c.metrics))
      × ((result.1.fetching ≡ c.fetching)
          ⊎ ((entry : Entry V) × (found ≡ some entry)
              × (now < entry.expires_at)
              × (entry.expires_at ≤ now + cfg.warm_lead_time_ms)
              × (cfg.warm_lead_time_ms < cfg.ttl_ms)))

  -- The answer for an entry that is found is its value, as long as it has not expired.
  abbrev Answers : V → Entry V → Option V → Type 0
  Answers value found answer = (answer ≡ some value) ↔ (
      (entry : Entry V) × (some found ≡ some entry)
      × (now < entry.expires_at)
      × (entry.value ≡ value))

  answer_expired :
      (value : V) (found : Entry V) → leb found.expires_at now ≡ true → Answers value found none
  answer_expired value found h = (
    λ none_is. cc,
    λ (entry, is, live, same).
        let times : found.expires_at ≡ entry.expires_at =
          ap (λ (o : Option (Entry V)). (or_else o found).expires_at) is in
        ground (arith, times, live),
  )

  answer_live :
      (value : V) (found : Entry V)
      → leb found.expires_at now ≡ false
      → Answers value found (some found.value)
  answer_live value found h = (
    λ is. (found, refl, ground arith, ap (λ (o : Option V). or_else o value) is),
    λ (entry, is, live, same).
        ap (λ (o : Option (Entry V)). some (or_else o found).value) is ∙ ap some same,
  )

  -- In the warming window, the call of a refresh is all that changes but the counts.
  serve-Served :
      (value : V) (found : Option (Entry V)) (c : Cache V)
      → Served value found c (serve cfg key now found c)
  serve-Served value none c = ((λ h. cc, λ h. cc), refl, omega arith, inl refl)
  serve-Served value (some entry) c = elim (Bool-cases (leb entry.expires_at now)) [
    | inl h ↦ rw h (answer_expired value entry h, refl, omega arith, inl refl)
    | inr h ↦ elim (Bool-cases (is_warming cfg now entry)) [
      | inr cold ↦ rw (h, cold) (answer_live value entry h, refl, omega arith, inl refl)
      | inl warm ↦ elim (Bool-cases (has key c.refresh_in_flight)) [
        | inl flying ↦ rw (h, warm, flying) (answer_live value entry h, refl, omega arith, inl refl)
        | inr free ↦
            let (kept, counts) = refresh_contract_lem c in
            rw (h, warm, free)
              (
                answer_live value entry h,
                kept,
                omega (arith, ap gets_counted counts),
                inr (entry, refl, ground arith, ground arith, ground arith),
              )
      ]
    ]
  ]

  -- A read answers a given value exactly when the entry of the key holds it and has not expired. It keeps the
  -- entries, counts as one hit, miss or stale serve, and fetches again only in the window in front of
  -- the expiry, which must be shorter than the time to live.
  pub cache_get-Served :
      (value : V) (c : Cache V) → Served value (get key c.cache_store) c (cache_get cfg key now c)
  unfolding cache_get
  cache_get-Served value c = serve-Served value (get key c.cache_store) c
