-- ===== src/Dedup/Tests.antt =====
-- Two requests for one operation, in flight together, and a response that comes late.
use stellar_royalty_splitter.Prelude.{
  ℕ, ◌≡◌, refl, String, none, some, [], ◌∷◌, nat_eq, string_eq, or_else,
}
use stellar_royalty_splitter.Prelude.Map.{get, set, delete}
use stellar_royalty_splitter.Dedup.Requests.{
  Body, World, runs, waits, json, entry_timed_out, dedup, intercepted_json, expire_entry,
}
use stellar_royalty_splitter.Dedup.Attended.{Attended, empty, at_start, arrived, dedup_runs_once}
use stellar_royalty_splitter.Dedup.Late.{late_response_frees_key}

abbrev body : Body
body = record {
  contract_id = some "C1";
  wallet_address = none;
  operation = some "simulate";
  token_id = none;
}

abbrev by_contract : Body → String
by_contract b = or_else b.contract_id ""

abbrev first : World ℕ
first = (dedup by_contract body empty).1

abbrev second : World ℕ
second = (dedup by_contract body first).1

-- The entry of the first request times out, and a third request runs.
abbrev third : World ℕ
third = (dedup by_contract body (expire_entry 0 second)).1

dedup_tests :
    ((dedup {B = ℕ} by_contract body empty).0 ≡ runs)
    × ((dedup by_contract body first).0 ≡ waits)
    × ((intercepted_json 0 200 7 second).sent ≡ ((0, json 200 7) ∷ (1, json 200 7) ∷ []))
    × ((expire_entry 0 second).sent ≡ ((1, entry_timed_out) ∷ []))
    × ((dedup by_contract body (expire_entry 0 second)).0 ≡ runs)
    × (second.hits ≡ 1)
unfolding dedup intercepted_json expire_entry get set delete
dedup_tests = (refl, refl, refl, refl, refl, refl)

dedup_runs_once_example :
    ((p q : ℕ) (key : String)
      → get p second.owners ≡ some key
      → get q second.owners ≡ some key
      → p ≡ q)
    × Attended second.owners second.waiting
dedup_runs_once_example = dedup_runs_once by_contract second (arrived (arrived at_start body) body)

late_response_frees_key_example :
    let w' = intercepted_json 0 200 7 third in
    ((dedup by_contract body w').0 ≡ runs)
    × (get 2 w'.owners ≡ some (by_contract body))
    × (expire_entry 2 w' ≡ w')
unfolding dedup expire_entry get set delete
late_response_frees_key_example =
    late_response_frees_key by_contract body "C1" 0 2 200 7 third refl refl refl refl refl
