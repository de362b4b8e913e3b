-- ===== src/Webhooks/Delivery.antt =====
-- backend/src/webhook-delivery.js. `postWebhook` is outside: an `Outcome` says whether the POST was
-- answered by a 2xx status, or else with which message it failed. The deliveries settle in any
-- order, each with the row that was read when they were started. The insert into the dead-letter
-- table is taken to succeed.
use stellar_royalty_splitter.Prelude.{
  ℕ, zero, suc, ◌+◌, String, some, List, [], ◌∷◌, leb, map, if◌then◌else◌,
}
use stellar_royalty_splitter.Webhooks.Store.{
  Webhook, Store, list_webhooks, reset_webhook_retry_count, update_webhook_retry_state_with_payload,
  move_to_dlq,
}

-- `BACKOFF_MS[Math.min(retryCount - 1, BACKOFF_MS.length - 1)]`, for counts from 1 on.
unfoldable pub backoff_ms : ℕ → ℕ
backoff_ms zero = 60000
backoff_ms (suc zero) = 60000
backoff_ms (suc (suc zero)) = 300000
backoff_ms (suc (suc (suc zero))) = 900000
backoff_ms (suc (suc (suc (suc n)))) = 3600000

abbrev pub max_webhook_retries : ℕ
max_webhook_retries = 4

pub data Outcome : Type 0 where
  delivered : Outcome
  failed : String → Outcome

-- The `then` and `catch` handlers of one delivery.
unfoldable pub settle_delivery : ℕ → String → Webhook → Outcome → Store → Store
unfolding reset_webhook_retry_count update_webhook_retry_state_with_payload move_to_dlq
settle_delivery now payload webhook delivered s = (reset_webhook_retry_count webhook.id s).1
settle_delivery now payload webhook (failed message) s =
    let retry_count = webhook.retry_count + 1 in
    let s' =
      (update_webhook_retry_state_with_payload webhook.id retry_count
        (some (now + backoff_ms retry_count)) (some payload) s).1 in
    if leb max_webhook_retries retry_count
    then (move_to_dlq webhook.id webhook.url webhook.contract_id payload message retry_count s').1
    else s'

unfoldable pub settle_deliveries : ℕ → String → List (Webhook × Outcome) → Store → Store
settle_deliveries now payload [] s = s
settle_deliveries now payload ((webhook, outcome) ∷ rest) s =
    settle_deliveries now payload rest (settle_delivery now payload webhook outcome s)

-- `deliverDistributeWebhooks`, where the deliveries settle in the order of the list.
unfoldable pub deliver_distribute_webhooks :
    ℕ → String → String → (Webhook → Outcome) → Store → Store
unfolding settle_deliveries list_webhooks
deliver_distribute_webhooks now contract_id payload answers s =
    settle_deliveries now payload (map (λ w. (w, answers w)) (list_webhooks contract_id s)) s
