-- ===== src/Webhooks/Exhaustion.antt =====
-- What a run of the retry job comes to: the report adds up, and no row stays due.
use stellar_royalty_splitter.Prelude.{
  ℕ, zero, suc, ◌+◌, ◌≤◌, ◌<◌, ◌≡◌, refl, String, Bool, true, false, List, [], ◌∷◌, length, All,
  keep, count_if, arith, nat_eq, Bool-cases, inl, inr, map, ap, ◌∙◌,
}
use stellar_royalty_splitter.Webhooks.Store.{
  Webhook, Store, is_due, get_webhooks_due_for_retry, reset_webhook_retry_count,
  update_webhook_retry_state_with_payload,
}
use stellar_royalty_splitter.Webhooks.Delivery.{Outcome, delivered, failed, backoff_ms}
use stellar_royalty_splitter.Webhooks.RetryJob.{
  Report, parses, retry_once, retry_all, execute_webhook_retry_run,
}
use stellar_royalty_splitter.Webhooks.Progress.{
  Distinct, after_answer, row_step, retry_run-webhooks,
}

backoff_ms_pos : (n : ℕ) → 0 < backoff_ms n
unfolding backoff_ms
backoff_ms_pos zero = omega arith
backoff_ms_pos (suc zero) = omega arith
backoff_ms_pos (suc (suc zero)) = omega arith
backoff_ms_pos (suc (suc (suc zero))) = omega arith
backoff_ms_pos (suc (suc (suc (suc n)))) = omega arith

after_answer_not_due :
    (now : ℕ) (l w : Webhook) (answer : Outcome) → is_due now (after_answer now l answer w) ≡ false
unfolding after_answer
after_answer_not_due now l w delivered = ground arith
after_answer_not_due now l w (failed message) = ground (arith, backoff_ms_pos (l.retry_count + 1))

module _ (now : ℕ) (is_json : String → Bool) (answers : Webhook → Outcome) where
  map-row_step_idle :
      (rows : List Webhook)
      → All (λ w. parses is_json w.payload ≡ true) rows
      → keep (is_due now) (map (row_step now is_json answers) rows) ≡ []
  map-row_step_idle [] h = refl
  map-row_step_idle (w ∷ rows) h =
      ground (arith, after_answer_not_due now w w (answers w), map-row_step_idle rows h.1)

  -- After a run, with no other writes meanwhile, no row is due at the time of the run, whatever the
  -- answers were, if no id stands twice and every stored payload parses.
  pub retry_run_clears :
      (s : Store)
      → Distinct s.webhooks
      → All (λ w. parses is_json w.payload ≡ true) s.webhooks
      → get_webhooks_due_for_retry now (execute_webhook_retry_run now is_json answers s).1 ≡ []
  unfolding get_webhooks_due_for_retry
  retry_run_clears s distinct valid =
      ap (keep (is_due now)) (retry_run-webhooks now is_json answers s distinct)
      ∙ map-row_step_idle s.webhooks valid

  abbrev is_posted : Webhook → Bool
  is_posted w = parses is_json w.payload

  -- A report counts each post once, and the exhausted ones among the failed.
  record Counts (due : List Webhook) (before after : Report × Store) : Type 0 where
    attempted : after.0.attempted ≡ before.0.attempted
    posts :
        after.0.succeeded + after.0.failed
        ≡ before.0.succeeded + before.0.failed + count_if is_posted due
    exhausted : after.0.exhausted + before.0.failed ≤ after.0.failed + before.0.exhausted
    dlq : after.1.dlq ≡ before.1.dlq

  retry_once-Counts :
      (w : Webhook) (answer : Outcome) (acc : Report × Store)
      → is_posted w ≡ true
      → Counts (w ∷ []) acc (retry_once now w answer acc)
  unfolding retry_once reset_webhook_retry_count update_webhook_retry_state_with_payload
  retry_once-Counts w delivered acc valid = ground arith
  retry_once-Counts w (failed message) acc valid = ground arith

  Counts-join :
      (w : Webhook) (due : List Webhook) (before mid after : Report × Store)
      → is_posted w ≡ true
      → Counts (w ∷ []) before mid
      → Counts due mid after
      → Counts (w ∷ due) before after
  Counts-join w due before mid after valid one rest = record {
    attempted = rest.attempted ∙ one.attempted;
    posts = ground (arith, one.posts, rest.posts);
    exhausted = omega (arith, one.exhausted, rest.exhausted);
    dlq = rest.dlq ∙ one.dlq;
  }

  Counts-skip :
      (w : Webhook) (due : List Webhook) (before after : Report × Store)
      → is_posted w ≡ false
      → Counts due before after
      → Counts (w ∷ due) before after
  Counts-skip w due before after broken rest = record {
    attempted = rest.attempted;
    posts = ground (arith, rest.posts);
    exhausted = rest.exhausted;
    dlq = rest.dlq;
  }

  retry_all-Counts :
      (due : List Webhook) (acc : Report × Store)
      → Counts due acc (retry_all now is_json answers due acc)
  unfolding retry_all
  retry_all-Counts [] acc = ground arith
  retry_all-Counts (w ∷ due) acc = elim (Bool-cases (is_posted w)) [
    | inl valid ↦
        let mid = retry_once now w (answers w) acc in
        rw (valid, retry_all)
          (Counts-join w due acc mid _ valid (retry_once-Counts w (answers w) acc valid)
            (retry_all-Counts due mid))
    | inr broken ↦
        rw (broken, retry_all) (Counts-skip w due acc _ broken (retry_all-Counts due acc))
  ]

  -- The report of a run accounts for every due row: those that were posted have succeeded or
  -- failed, the others had a payload that does not parse, and the exhausted ones are among the
  -- failed. The run never writes to the dead-letter table, also not for an exhausted webhook.
  pub retry_run_report :
      (s : Store)
      → let due = get_webhooks_due_for_retry now s in
        let (report, after) = execute_webhook_retry_run now is_json answers s in
        (report.attempted ≡ length due)
        × (report.succeeded + report.failed ≡ count_if (λ w. parses is_json w.payload) due)
        × (report.exhausted ≤ report.failed)
        × (after.dlq ≡ s.dlq)
  unfolding execute_webhook_retry_run
  retry_run_report s =
      let counts = retry_all-Counts (get_webhooks_due_for_retry now s) (
        record {
          attempted = length (get_webhooks_due_for_retry now s);
          succeeded = 0;
          failed = 0;
          exhausted = 0;
        },
        s,
      ) in
      (counts.attempted, omega (arith, counts.posts), omega (arith, counts.exhausted), counts.dlq)
