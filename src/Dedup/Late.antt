-- ===== src/Dedup/Late.antt =====
-- What a response comes to whose entry has timed out, while another request runs under its key.
use stellar_royalty_splitter.Prelude.{
  ℕ, ◌≡◌, refl, ap, ◌∙◌, String, false, none, some, ◌==◌, nat_eq, string_eq, ==_self,
}
use stellar_royalty_splitter.Prelude.Map.{Map, get, delete}
use stellar_royalty_splitter.Prelude.Map.Laws.{get-delete}
use stellar_royalty_splitter.Dedup.Requests.{
  Body, World, runs, dedup, intercepted_json, expire_entry,
}

dedup_free :
    {B : Type 0} (build_dedup_key : Body → String) (body : Body) (contract_id : String)
    (w : World B)
    → body.contract_id ≡ some contract_id
    → (contract_id == "") ≡ false
    → get (build_dedup_key body) w.in_flight ≡ none
    → (dedup build_dedup_key body w).0 ≡ runs
unfolding dedup
dedup_free build_dedup_key body contract_id w id some_id free = rw (id, dedup, some_id, free)

expire_entry_free :
    {B : Type 0} (key : String) (owner : ℕ) (w : World B)
    → get owner w.owners ≡ some key
    → get key w.in_flight ≡ none
    → expire_entry owner w ≡ w
unfolding expire_entry
expire_entry_free key owner w is free = rw (is, expire_entry, free)

freed : (key : String) (m : Map String ℕ) → get key (delete key m) ≡ none
freed key m = rw (get-delete key key m, ==_self key)

intercepted_json_owned :
    {B : Type 0} (request status : ℕ) (key : String) (reply : B) (w : World B)
    → get request w.keys ≡ some key
    → let w' = intercepted_json request status reply w in
      (w'.in_flight ≡ delete key w.in_flight) × (w'.owners ≡ delete request w.owners)
unfolding intercepted_json
intercepted_json_owned request status key reply w is = rw (is, intercepted_json) (refl, refl)

-- If a request that is not the one in flight under its key responds, because its entry has timed out or
-- because it has responded before, the key is free: the next
-- request with the key runs too, though the one in flight has not responded, and the timer of the
-- one in flight does nothing any more.
pub late_response_frees_key :
    {B : Type 0} (build_dedup_key : Body → String) (body : Body) (contract_id : String)
    (late current status : ℕ) (reply : B) (w : World B)
    → body.contract_id ≡ some contract_id
    → (contract_id == "") ≡ false
    → get late w.keys ≡ some (build_dedup_key body)
    → get current w.owners ≡ some (build_dedup_key body)
    → (late == current) ≡ false
    → let w' = intercepted_json late status reply w in
      ((dedup build_dedup_key body w').0 ≡ runs)
      × (get current w'.owners ≡ some (build_dedup_key body))
      × (expire_entry current w' ≡ w')
late_response_frees_key build_dedup_key body contract_id late current status reply w id some_id
      is_late is_current other =
    let k = build_dedup_key body in
    let same = intercepted_json_owned late status k reply w is_late in
    let free : get k (intercepted_json late status reply w).in_flight ≡ none =
      ap (λ m. get k m) same.0 ∙ freed k w.in_flight in
    let runs_on : get current (intercepted_json late status reply w).owners ≡ some k =
      ap (λ m. get current m) same.1 ∙ rw (get-delete current late w.owners, other) is_current in
    (
      dedup_free build_dedup_key body contract_id _ id some_id free,
      runs_on,
      expire_entry_free k current _ runs_on free,
    )
