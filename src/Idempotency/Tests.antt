-- ===== src/Idempotency/Tests.antt =====
-- Runs of the idempotency middleware at concrete requests.
use stellar_royalty_splitter.Prelude.{
  ℕ, ◌≡◌, refl, some, none, List, [], ◌∷◌, arith, string_eq, true,
}
use stellar_royalty_splitter.Prelude.Map.{get, set, delete}
use stellar_royalty_splitter.Prelude.Text.{is_token_char}
use stellar_royalty_splitter.Idempotency.{
  Config, Cache, status, json, intercepted, replayed, rejected, skipped, arrive, respond, is_key,
  cache_response, perform,
}
use stellar_royalty_splitter.Idempotency.Bounds.{IsBounded, respond-IsBounded}
use stellar_royalty_splitter.Idempotency.Replay.{
  Event, arrival, response, cleanup, run, arrive_replays,
}

abbrev small : Config
small = record { ttl_ms = 1000; max_entries = 2 }

abbrev empty : Cache ℕ
empty = []

abbrev one_entry : Cache ℕ
one_entry =
    ("order-1", record { response = record { status = 201; body = 7 }; expires_at = 1050 }) ∷ []

abbrev between : List (Event ℕ)
between = arrival 60 (some "order-2") ∷ response 70 "order-2" (json 9 ∷ []) ∷ cleanup 80 ∷ []

arrive_tests :
    ((arrive 1050 (some "order-1") one_entry).0 ≡ replayed (record { status = 201; body = 7 }))
    × ((arrive 1051 (some "order-1") one_entry) ≡ (intercepted "order-1", []))
    × ((arrive 1 (some "order 1") one_entry).0 ≡ rejected)
    × ((arrive 1 (some "") one_entry).0 ≡ skipped)
    × ((respond small 50 "order-1" (status 201 ∷ json 7 ∷ []) empty).cache ≡ one_entry)
unfolding arrive respond perform cache_response is_key is_token_char get set delete
arrive_tests = (refl, refl, refl, refl, refl)

small_key : is_key "order-1" ≡ true
unfolding is_key is_token_char
small_key = refl

empty-get : get "order-1" empty ≡ none
unfolding get
empty-get = refl

empty-IsBounded : IsBounded small empty
empty-IsBounded = record { room = omega arith; distinct = tt }

one_entry-IsBounded : IsBounded small one_entry
unfolding get
one_entry-IsBounded = record { room = omega arith; distinct = (refl, tt) }

respond-IsBounded_example :
    IsBounded small (respond small 50 "order-1" (json 7 ∷ json 8 ∷ []) one_entry).cache
respond-IsBounded_example =
    respond-IsBounded small (omega arith) 50 "order-1" (json 7 ∷ json 8 ∷ []) one_entry
      one_entry-IsBounded

arrive_replays_example :
    let later =
      run small between (respond small 50 "order-1" (status 201 ∷ json 7 ∷ []) empty).cache in
    arrive 1000 (some "order-1") later ≡ (replayed (record { status = 201; body = 7 }), later)
arrive_replays_example =
    arrive_replays small "order-1" 201 7 50 1000 between empty small_key (omega arith) (omega arith)
      empty-get (omega arith) (omega arith, (refl, (omega arith, tt))) (omega arith)
