-- ===== src/Webhooks/Tests.antt =====
-- Webhooks of two contracts, registered, failing and retried.
use stellar_royalty_splitter.Prelude.{
  ℕ, ◌≤◌, ◌≡◌, refl, Bool, true, false, String, none, some, List, [], ◌∷◌, map, length, nat_eq,
}
use stellar_royalty_splitter.Webhooks.Store.{
  Webhook, Store, register_webhook, list_webhooks, delete_webhook, get_webhooks_due_for_retry,
  update_webhook_retry_state_with_payload, update_webhook_retry_state,
}
use stellar_royalty_splitter.Webhooks.Delivery.{
  Outcome, delivered, failed, backoff_ms, deliver_distribute_webhooks, settle_delivery,
}
use stellar_royalty_splitter.Webhooks.RetryJob.{execute_webhook_retry_run}
use stellar_royalty_splitter.Webhooks.Progress.{Distinct, row_step, retry_run-webhooks}
use stellar_royalty_splitter.Webhooks.Exhaustion.{retry_run_clears}
use stellar_royalty_splitter.Webhooks.Attempts.{posts_over, posts_over-le_max}

abbrev empty : Store
empty = record {
  webhooks = [];
  dlq = [];
  next_webhook_id = 1;
  next_dlq_id = 1;
  last_insert_rowid = 0;
  writes = 0;
}

abbrev hook : ℕ → ℕ → Webhook
hook id retry_count = record {
  id = id;
  contract_id = "C1";
  url = "https://a.example";
  enabled = true;
  retry_count = retry_count;
  next_retry_time = some 1000;
  payload = some "{}";
}

abbrev waiting : Store
waiting = record empty {
  webhooks = hook 1 2 ∷ hook 2 3 ∷ [];
  next_webhook_id = 3;
  last_insert_rowid = 2;
}

abbrev any_json : String → Bool
any_json text = true

abbrev down : Webhook → Outcome
down w = failed "HTTP 500"

abbrev one_target : Store
one_target = (register_webhook "C1" "https://a.example" empty).1

registration_tests :
    ((register_webhook "C1" "https://a.example" empty).0 ≡ 1)
    × (length (list_webhooks "C1" one_target) ≡ 1)
    × (length (list_webhooks "C2" one_target) ≡ 0)
    × ((delete_webhook "C1" 1 one_target).0 ≡ true)
    × ((delete_webhook "C2" 1 one_target).0 ≡ false)
    × ((update_webhook_retry_state 9 1 none one_target).0 ≡ false)
unfolding register_webhook list_webhooks delete_webhook update_webhook_retry_state
registration_tests = (refl, refl, refl, refl, refl, refl)

retry_tests :
    ((execute_webhook_retry_run 2000 any_json down waiting).0
      ≡ record { attempted = 2; succeeded = 0; failed = 2; exhausted = 1 })
    × (map
          (λ w. w.next_retry_time)
          (execute_webhook_retry_run 2000 any_json down waiting).1.webhooks
        ≡ (some 902000 ∷ none ∷ []))
    × ((execute_webhook_retry_run 500 any_json down waiting).0.attempted ≡ 0)
unfolding execute_webhook_retry_run update_webhook_retry_state_with_payload backoff_ms
retry_tests = (refl, refl, refl)

-- The fourth failure of a delivery writes to the dead-letter table, and still schedules a retry.
delivery_tests :
    (length (deliver_distribute_webhooks 2000 "C1" "{}" down waiting).dlq ≡ 1)
    × (map
          (λ w. w.next_retry_time)
          (deliver_distribute_webhooks 2000 "C1" "{}" down waiting).webhooks
        ≡ (some 902000 ∷ some 3602000 ∷ []))
    × (map
          (λ w. w.retry_count)
          (deliver_distribute_webhooks 2000 "C1" "{}" (λ w. delivered) waiting).webhooks
        ≡ (0 ∷ 0 ∷ []))
unfolding deliver_distribute_webhooks settle_delivery backoff_ms
delivery_tests = (refl, refl, refl)

waiting-Distinct : Distinct waiting.webhooks
waiting-Distinct = (refl, (refl, tt))

retry_run-webhooks_example :
    (execute_webhook_retry_run 2000 any_json down waiting).1.webhooks
    ≡ map (row_step 2000 any_json down) waiting.webhooks
retry_run-webhooks_example = retry_run-webhooks 2000 any_json down waiting waiting-Distinct

retry_run_clears_example :
    get_webhooks_due_for_retry 2000 (execute_webhook_retry_run 2000 any_json down waiting).1 ≡ []
retry_run_clears_example =
    retry_run_clears 2000 any_json down waiting waiting-Distinct (refl, (refl, tt))

abbrev three_runs : List (ℕ × (Webhook → Outcome))
three_runs = (2000, down) ∷ (902000, down) ∷ (9000000, down) ∷ []

posts_over-le_max_example : posts_over any_json 1 three_runs waiting ≤ 4
posts_over-le_max_example = posts_over-le_max any_json 1 three_runs waiting waiting-Distinct (
  (λ w is. ("HTTP 500", refl)),
  ((λ w is. ("HTTP 500", refl)), ((λ w is. ("HTTP 500", refl)), tt)),
)

posts_over_tests : posts_over any_json 1 three_runs waiting ≡ 2
unfolding posts_over execute_webhook_retry_run get_webhooks_due_for_retry
    update_webhook_retry_state_with_payload backoff_ms
posts_over_tests = refl
