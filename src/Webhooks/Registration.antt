-- ===== src/Webhooks/Registration.antt =====
-- What registration does to the table of the webhooks, and which id it answers.
use stellar_royalty_splitter.Prelude.{
  ℕ, suc, ◌<◌, ◌≡◌, ◌≢◌, refl, String, Bool, true, false, List, [], ◌∷◌, ◌++◌, All, any, keep,
  update_where, arith, nat_eq, string_eq, Bool-cases, inl, inr, ==_self,
}
use stellar_royalty_splitter.Webhooks.Store.{
  Webhook, Store, has_id, is_target, is_listed, re_enable, new_webhook, register_webhook,
  list_webhooks,
}
use stellar_royalty_splitter.Webhooks.Progress.{Distinct}

-- Every id of the table was handed out by the counter.
abbrev pub Below : ℕ → List Webhook → Type 0
Below n rows = All (λ w. w.id < n) rows

-- Every id of the table stands once, and the counter is above them all.
pub record IsValid (s : Store) : Type 0 where
  pub distinct : Distinct s.webhooks
  pub below : Below s.next_webhook_id s.webhooks

any-update_where :
    (p : Webhook → Bool) (f : Webhook → Webhook) (id : ℕ) (rows : List Webhook)
    → ((w : Webhook) → (f w).id ≡ w.id)
    → any (has_id id) (update_where p f rows) ≡ any (has_id id) rows
any-update_where p f id [] h = refl
any-update_where p f id (w ∷ rows) h = ground (arith, h w, any-update_where p f id rows h)

update_where-Distinct :
    (p : Webhook → Bool) (f : Webhook → Webhook) (rows : List Webhook)
    → ((w : Webhook) → (f w).id ≡ w.id)
    → Distinct rows
    → Distinct (update_where p f rows)
update_where-Distinct p f [] h distinct = tt
update_where-Distinct p f (w ∷ rows) h distinct =
    let absent = any-update_where p f w.id rows h in
    let rest = update_where-Distinct p f rows h distinct.1 in
    elim (Bool-cases (p w)) [
      | inl is ↦ rw (is, h w, absent) (distinct.0, rest)
      | inr other ↦ rw (other, absent) (distinct.0, rest)
    ]

update_where-Below :
    (p : Webhook → Bool) (f : Webhook → Webhook) (n : ℕ) (rows : List Webhook)
    → ((w : Webhook) → (f w).id ≡ w.id)
    → Below n rows
    → Below n (update_where p f rows)
update_where-Below p f n [] h below = tt
update_where-Below p f n (w ∷ rows) h below =
    let rest = update_where-Below p f n rows h below.1 in
    elim (Bool-cases (p w)) [
      | inl is ↦ rw (is, h w) (below.0, rest)
      | inr other ↦ rw other (below.0, rest)
    ]

append-Below :
    (n : ℕ) (rows : List Webhook) (w : Webhook)
    → Below n rows
    → w.id ≡ n
    → Below (suc n) (rows ++ (w ∷ []))
append-Below n [] w below is = (omega arith, tt)
append-Below n (r ∷ rows) w below is = (omega (arith, below.0), append-Below n rows w below.1 is)

any-append_last :
    (id : ℕ) (rows : List Webhook) (w : Webhook)
    → any (has_id id) rows ≡ false
    → w.id ≢ id
    → any (has_id id) (rows ++ (w ∷ [])) ≡ false
any-append_last id [] w absent other = ground arith
any-append_last id (r ∷ rows) w absent other = ground (arith, any-append_last id rows w)

append-Distinct :
    (n : ℕ) (rows : List Webhook) (w : Webhook)
    → Distinct rows
    → Below n rows
    → w.id ≡ n
    → Distinct (rows ++ (w ∷ []))
append-Distinct n [] w distinct below is = (refl, tt)
append-Distinct n (r ∷ rows) w distinct below is = (
  any-append_last r.id rows w distinct.0 (λ same. absurd (omega (arith, below.0, same, is))),
  append-Distinct n rows w distinct.1 below.1 is,
)

-- Registering keeps the table valid, whether the row is new or re-enabled: every id stands once.
pub register_webhook-IsValid :
    (contract_id url : String) (s : Store)
    → IsValid s
    → IsValid (register_webhook contract_id url s).1
unfolding register_webhook
register_webhook-IsValid contract_id url s h =
    let p = is_target contract_id url in
    elim (Bool-cases (any p s.webhooks)) [
      | inl known ↦ rw known (record {
        distinct = update_where-Distinct p re_enable s.webhooks (λ w. refl) h.distinct;
        below = update_where-Below p re_enable s.next_webhook_id s.webhooks (λ w. refl) h.below;
      })
      | inr fresh ↦ rw fresh (record {
        distinct = append-Distinct s.next_webhook_id s.webhooks _ h.distinct h.below refl;
        below = append-Below s.next_webhook_id s.webhooks _ h.below refl;
      })
    ]

-- The rows of a target that are listed.
abbrev pub listed_targets : String → String → Store → List Webhook
listed_targets contract_id url s = keep (is_target contract_id url) (list_webhooks contract_id s)

relisted :
    (contract_id url : String) (rows : List Webhook)
    → any (is_target contract_id url) rows ≡ true
    → keep
        (is_target contract_id url)
        (keep (is_listed contract_id) (update_where (is_target contract_id url) re_enable rows))
      ≢ []
relisted contract_id url [] known empty = ground arith
relisted contract_id url (w ∷ rows) known empty = ground (arith, relisted contract_id url rows)

appended :
    (contract_id url : String) (rows : List Webhook) (w : Webhook)
    → is_target contract_id url w ≡ true
    → w.enabled ≡ true
    → keep (is_target contract_id url) (keep (is_listed contract_id) (rows ++ (w ∷ []))) ≢ []
appended contract_id url [] w target enabled empty = ground arith
appended contract_id url (r ∷ rows) w target enabled empty =
    ground (arith, appended contract_id url rows w)

-- Behind a registration the target is listed for its contract, also if it had been disabled.
pub register_webhook_listed :
    (contract_id url : String) (s : Store)
    → listed_targets contract_id url (register_webhook contract_id url s).1 ≢ []
unfolding register_webhook list_webhooks
register_webhook_listed contract_id url s =
    elim (Bool-cases (any (is_target contract_id url) s.webhooks)) [
      | inl known ↦ rw known (relisted contract_id url s.webhooks known)
      | inr fresh ↦ rw fresh (
          appended contract_id url s.webhooks (new_webhook s.next_webhook_id contract_id url)
            (rw (==_self contract_id, ==_self url)) refl)
    ]

any-updated_target :
    (contract_id url : String) (rows : List Webhook) (w : Webhook)
    → is_target contract_id url w ≡ true
    → any (is_target contract_id url) (rows ++ (w ∷ [])) ≡ true
any-updated_target contract_id url [] w target = ground arith
any-updated_target contract_id url (r ∷ rows) w target =
    ground (arith, any-updated_target contract_id url rows w target)

any-append_mono :
    (p : Webhook → Bool) (rows : List Webhook) (w : Webhook)
    → any p rows ≡ true
    → any p (rows ++ (w ∷ [])) ≡ true
any-append_mono p [] w h = ground arith
any-append_mono p (r ∷ rows) w h = ground (arith, any-append_mono p rows w)

-- If a target is known and another one is registered for the first time, a repeated registration of
-- the first answers the id of the other one: the id that was inserted last.
pub register_again_stale :
    (contract_id url other : String) (s : Store)
    → any (is_target contract_id url) s.webhooks ≡ true
    → any (is_target contract_id other) s.webhooks ≡ false
    → let (fresh, s') = register_webhook contract_id other s in
      (register_webhook contract_id url s').0 ≡ fresh
unfolding register_webhook
register_again_stale contract_id url other s known new = rw (
  new,
  any-append_mono (is_target contract_id url) s.webhooks
      (new_webhook s.next_webhook_id contract_id other) known,
)
