-- ===== src/Webhooks/RetryJob.antt =====
-- backend/src/jobs/retry-failed-webhooks.js: one run of the job. `JSON.parse` is a test of the
-- stored payload, and a missing payload parses to `null`. The timer that starts it is left out. A run
-- awaits the answer of each post: `retry_once` is what follows it, on the store of that time, while the
-- rows are those that were read when the run began. `begin_retry_run` and `retry_step` are its steps,
-- with other writes in between; the timer does not wait for a run to end before it starts the next
-- one. `execute_webhook_retry_run` is a run in which nothing else writes the table meanwhile.
use stellar_royalty_splitter.Prelude.{
  ℕ, ◌+◌, String, Bool, true, Option, none, some, List, [], ◌∷◌, leb, length, if◌then◌else◌,
}
use stellar_royalty_splitter.Webhooks.Store.{
  Webhook, Store, get_webhooks_due_for_retry, reset_webhook_retry_count,
  update_webhook_retry_state_with_payload,
}
use stellar_royalty_splitter.Webhooks.Delivery.{
  Outcome, delivered, failed, backoff_ms, max_webhook_retries,
}

pub record Report : Type 0 where
  pub attempted : ℕ
  pub succeeded : ℕ
  pub failed : ℕ
  pub exhausted : ℕ

abbrev pub parses : (String → Bool) → Option String → Bool
parses is_json none = true
parses is_json (some text) = is_json text

-- The rest of the loop's body, behind `await postWebhook`.
unfoldable pub retry_once : ℕ → Webhook → Outcome → Report × Store → Report × Store
retry_once now webhook delivered (r, s) =
    (record r { succeeded = r.succeeded + 1 }, (reset_webhook_retry_count webhook.id s).1)
retry_once now webhook (failed message) (r, s) =
    let retry_count = webhook.retry_count + 1 in
    if leb max_webhook_retries retry_count
    then (
      record r { exhausted = r.exhausted + 1; failed = r.failed + 1 },
      (update_webhook_retry_state_with_payload webhook.id retry_count none webhook.payload s).1,
    )
    else (
      record r { failed = r.failed + 1 },
      (update_webhook_retry_state_with_payload webhook.id retry_count
          (some (now + backoff_ms retry_count)) webhook.payload s).1,
    )

-- A run that is under way: its time, the rows that it has read and not yet posted, and its counts.
pub record RetryRun : Type 0 where
  pub started_at : ℕ
  pub due : List Webhook
  pub report : Report

-- Up to the first `await postWebhook`
unfoldable pub begin_retry_run : ℕ → Store → RetryRun
unfolding get_webhooks_due_for_retry
begin_retry_run now s =
    let due = get_webhooks_due_for_retry now s in
    record {
      started_at = now;
      due = due;
      report = record { attempted = length due; succeeded = 0; failed = 0; exhausted = 0 };
    }

-- The answer to the next row; other runs may have written the table since it was read.
unfoldable pub retry_step : (String → Bool) → Outcome → RetryRun → Store → RetryRun × Store
unfolding retry_once
retry_step is_json answer run s = elim run.due [
  | [] ↦ (run, s)
  | w ∷ rest ↦
      let (report, stored) =
        (if parses is_json w.payload
          then retry_once run.started_at w answer (run.report, s)
          else (run.report, s)) in
      (record { started_at = run.started_at; due = rest; report = report }, stored)
]

-- `for (const webhook of due)`; a payload that does not parse is skipped.
unfoldable pub retry_all :
    ℕ → (String → Bool) → (Webhook → Outcome) → List Webhook → Report × Store → Report × Store
unfolding retry_once
retry_all now is_json answers [] acc = acc
retry_all now is_json answers (w ∷ rest) acc =
    retry_all now is_json answers rest
      (if parses is_json w.payload then retry_once now w (answers w) acc else acc)

-- `executeWebhookRetryRun`, alone
unfoldable pub execute_webhook_retry_run :
    ℕ → (String → Bool) → (Webhook → Outcome) → Store → Report × Store
unfolding retry_all get_webhooks_due_for_retry
execute_webhook_retry_run now is_json answers s =
    let due = get_webhooks_due_for_retry now s in
    retry_all now is_json answers due
      (record { attempted = length due; succeeded = 0; failed = 0; exhausted = 0 }, s)
