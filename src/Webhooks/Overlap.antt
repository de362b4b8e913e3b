-- ===== src/Webhooks/Overlap.antt =====
-- The steps of runs of the retry job (backend/src/jobs/retry-failed-webhooks.js), one run alone and two
-- at the same time.
use stellar_royalty_splitter.Prelude.{
  ℕ, ◌+◌, ◌≡◌, refl, ap, ◌∙◌, String, Bool, true, some, List, [], ◌∷◌, length, find_first,
  if◌then◌else◌, arith, nat_eq, ==_self, ◌==◌,
}
use stellar_royalty_splitter.Prelude.Rows.{find_first-update_where}
use stellar_royalty_splitter.Webhooks.Store.{Webhook, Store, has_id, get_webhooks_due_for_retry}
use stellar_royalty_splitter.Webhooks.Delivery.{Outcome, failed}
use stellar_royalty_splitter.Webhooks.RetryJob.{
  Report, RetryRun, parses, retry_once, retry_all, begin_retry_run, retry_step,
  execute_webhook_retry_run,
}
use stellar_royalty_splitter.Webhooks.Progress.{after_answer, retry_once-webhooks, after_answer-id}

module _ (is_json : String → Bool) where
  -- The steps of one run, with nothing in between, by the answers to its rows.
  abbrev steps : (Webhook → Outcome) → List Webhook → RetryRun × Store → RetryRun × Store
  steps answers [] p = p
  steps answers (w ∷ due) p = steps answers due (retry_step is_json (answers w) p.0 p.1)

  steps-retry_all :
      (answers : Webhook → Outcome) (now : ℕ) (due : List Webhook) (acc : Report × Store)
      → let p = steps answers due (record { started_at = now; due = due; report = acc.0 }, acc.1) in
        (p.0.report, p.1) ≡ retry_all now is_json answers due acc
  unfolding retry_step retry_all
  steps-retry_all answers now [] acc = refl
  steps-retry_all answers now (w ∷ due) acc =
      steps-retry_all answers now due
        (if parses is_json w.payload then retry_once now w (answers w) acc else acc)

  -- A run alone is its steps.
  pub steps-execute :
      (answers : Webhook → Outcome) (now : ℕ) (s : Store)
      → let run = begin_retry_run now s in
        let p = steps answers run.due (run, s) in
        (p.0.report, p.1) ≡ execute_webhook_retry_run now is_json answers s
  unfolding begin_retry_run execute_webhook_retry_run
  steps-execute answers now s =
      let due = get_webhooks_due_for_retry now s in
      steps-retry_all answers now due
        (record { attempted = length due; succeeded = 0; failed = 0; exhausted = 0 }, s)

  failure_counts :
      (now : ℕ) (l : Webhook) (message : String) (w : Webhook)
      → (after_answer now l (failed message) w).retry_count ≡ l.retry_count + 1
  unfolding after_answer
  failure_counts now l message w = ground arith

  step_webhook :
      (w : Webhook) (rest : List Webhook) (now : ℕ) (report : Report) (message : String) (s : Store)
      (there : Webhook)
      → parses is_json w.payload ≡ true
      → find_first (has_id w.id) s.webhooks ≡ some there
      → there.id ≡ w.id
      → find_first
          (has_id w.id)
          (retry_step is_json
            (failed message)
            (record { started_at = now; due = w ∷ rest; report = report })
            s).1.webhooks
        ≡ some (after_answer now w (failed message) there)
  unfolding retry_step
  step_webhook w rest now report message s there valid found same =
      let keeps = λ (y : Webhook).
        ap (λ i. i == w.id)
          (after_answer-id now is_json (λ v. failed message) w y (failed message)) in
      let hit : has_id w.id there ≡ true = ap (λ i. i == w.id) same ∙ ==_self w.id in
      rw valid (
        ap (find_first (has_id w.id))
          (retry_once-webhooks now is_json (λ v. failed message) w (failed message) (report, s))
        ∙ find_first-update_where (has_id w.id) (has_id w.id) (after_answer now w (failed message))
            s.webhooks there keeps found hit)

  -- Two runs that both have read a row before one of them has the answer to its post: both post it, but
  -- two failures raise its count of retries by one only.
  pub overlapping_runs_count_once :
      (w : Webhook) (rest rest' : List Webhook) (now later : ℕ) (report report' : Report)
      (message message' : String) (s : Store)
      → parses is_json w.payload ≡ true
      → find_first (has_id w.id) s.webhooks ≡ some w
      → let (run, between) =
          retry_step is_json
            (failed message)
            (record { started_at = now; due = w ∷ rest; report = report })
            s in
        let (run', after) =
          retry_step is_json
            (failed message')
            (record { started_at = later; due = w ∷ rest'; report = report' })
            between in
        (row : Webhook) × (find_first (has_id w.id) after.webhooks ≡ some row)
        × (row.retry_count ≡ w.retry_count + 1)
  overlapping_runs_count_once w rest rest' now later report report' message message' s valid found =
      let first = after_answer now w (failed message) w in
      let id = after_answer-id now is_json (λ v. failed message) w w (failed message) in
      (
        after_answer later w (failed message') first,
        step_webhook w rest' later report' message' _ first valid
            (step_webhook w rest now report message s w valid found refl) id,
        failure_counts later w message' first,
      )
