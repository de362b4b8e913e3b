-- ===== src/Webhooks/Attempts.antt =====
-- Over runs of the retry job that do not overlap, a webhook that keeps failing is posted at most four
-- times.
use stellar_royalty_splitter.Prelude.{
  ℕ, ◌+◌, ◌-◌, ◌≤◌, ◌≡◌, refl, String, Bool, true, false, ◌&&◌, List, [], ◌∷◌, if◌then◌else◌, any,
  All, keep, count_if, arith, nat_eq, Bool-cases, inl, inr, map,
}
use stellar_royalty_splitter.Webhooks.Store.{
  Webhook, Store, has_id, is_due, get_webhooks_due_for_retry,
}
use stellar_royalty_splitter.Webhooks.Delivery.{Outcome, failed}
use stellar_royalty_splitter.Webhooks.RetryJob.{parses, execute_webhook_retry_run}
use stellar_royalty_splitter.Webhooks.Progress.{
  Distinct, after_answer, after_answer-id, row_step, retry_run-webhooks,
}

module _ (is_json : String → Bool) (id : ℕ) where
  -- The rows of the webhook that are posted by a run at `now`.
  abbrev pub posts : ℕ → Store → ℕ
  posts now s =
      count_if (λ w. has_id id w && parses is_json w.payload) (get_webhooks_due_for_retry now s)

  -- The posts of the webhook over runs at the given times, one behind the other, each with its answers.
  unfoldable pub posts_over : List (ℕ × (Webhook → Outcome)) → Store → ℕ
  posts_over [] s = 0
  posts_over ((now, answers) ∷ runs) s =
      posts now s + posts_over runs (execute_webhook_retry_run now is_json answers s).1

  -- Every answer of the run is a failure for this webhook.
  abbrev pub Fails : ℕ × (Webhook → Outcome) → Type 0
  Fails run = (w : Webhook) → has_id id w ≡ true → (message : String) × (run.1 w ≡ failed message)

  -- The failures that are left before the webhook is given up.
  abbrev budget : List Webhook → ℕ
  budget [] = 0
  budget (w ∷ rows) =
      let rest = budget rows in if has_id id w then (4 - w.retry_count) + rest else rest

  abbrev posted : ℕ → List Webhook → ℕ
  posted now rows = count_if (λ w. has_id id w && parses is_json w.payload) (keep (is_due now) rows)

  budget_absent : (rows : List Webhook) → any (has_id id) rows ≡ false → budget rows ≡ 0
  budget_absent [] h = refl
  budget_absent (w ∷ rows) h = ground (arith, budget_absent rows)

  budget-le : (rows : List Webhook) → Distinct rows → budget rows ≤ 4
  budget-le [] h = omega arith
  budget-le (w ∷ rows) h = elim (Bool-cases (has_id id w)) [
    | inl is ↦
        let same : w.id ≡ id = ground arith in
        let absent : any (has_id id) rows ≡ false = rw same at h.0 in
        ground (arith, budget_absent rows absent)
    | inr other ↦ ground (arith, budget-le rows h.1)
  ]

  after_failure :
      (now : ℕ) (w : Webhook) (answer : Outcome) (message : String)
      → answer ≡ failed message
      → (after_answer now w answer w).retry_count ≡ w.retry_count + 1
  unfolding after_answer
  after_failure now w answer message is = rw is (ground arith)

  row_step-id :
      (run : ℕ × (Webhook → Outcome)) (w : Webhook) → (row_step run.0 is_json run.1 w).id ≡ w.id
  row_step-id (now, answers) w = ground (arith, after_answer-id now is_json answers w w (answers w))

  any-map-row_step :
      (run : ℕ × (Webhook → Outcome)) (j : ℕ) (rows : List Webhook)
      → any (has_id j) (map (row_step run.0 is_json run.1) rows) ≡ any (has_id j) rows
  any-map-row_step run j [] = refl
  any-map-row_step run j (w ∷ rows) = rw (row_step-id run w, any-map-row_step run j rows)

  map-row_step-Distinct :
      (run : ℕ × (Webhook → Outcome)) (rows : List Webhook)
      → Distinct rows
      → Distinct (map (row_step run.0 is_json run.1) rows)
  map-row_step-Distinct run [] h = tt
  map-row_step-Distinct run (w ∷ rows) h = (
    rw (row_step-id run w, any-map-row_step run w.id rows) h.0,
    map-row_step-Distinct run rows h.1,
  )

  budget-row_step :
      (run : ℕ × (Webhook → Outcome)) (rows : List Webhook)
      → Fails run
      → posted run.0 rows + budget (map (row_step run.0 is_json run.1) rows) ≤ budget rows
  budget-row_step run [] fails = omega arith
  budget-row_step run (w ∷ rows) fails =
      let rest = budget-row_step run rows fails in
      let same = row_step-id run w in
      elim (Bool-cases (has_id id w)) [
        | inr other ↦ ground (arith, rest, same)
        | inl is ↦ elim (Bool-cases (is_due run.0 w)) [
          | inr idle ↦ ground (arith, rest)
          | inl due ↦ elim (Bool-cases (parses is_json w.payload)) [
            | inr broken ↦ ground (arith, rest)
            | inl valid ↦
                let (message, answer) = fails w is in
                let counted = after_failure run.0 w (run.1 w) message answer in
                ground (arith, rest, same, counted)
          ]
        ]
      ]

  posts_over-le :
      (runs : List (ℕ × (Webhook → Outcome))) (s : Store)
      → Distinct s.webhooks
      → All Fails runs
      → posts_over runs s ≤ budget s.webhooks
  unfolding posts_over get_webhooks_due_for_retry
  posts_over-le [] s h fails = omega arith
  posts_over-le ((now, answers) ∷ runs) s h fails =
      let s' = (execute_webhook_retry_run now is_json answers s).1 in
      let stepped = retry_run-webhooks now is_json answers s h in
      let rest =
        posts_over-le runs s' (rw stepped (map-row_step-Distinct (now, answers) s.webhooks h))
          fails.1 in
      let first = budget-row_step (now, answers) s.webhooks fails.0 in
      let left : posts_over runs s' ≤ budget (map (row_step now is_json answers) s.webhooks) =
        rw stepped at rest in
      omega (arith, left, first)

  -- A webhook that fails at every run is posted at most four times, over runs at any times of which
  -- each one begins behind the end of the one before and alone writes the table, if no id stands twice
  -- in it.
  pub posts_over-le_max :
      (runs : List (ℕ × (Webhook → Outcome))) (s : Store)
      → Distinct s.webhooks
      → All Fails runs
      → posts_over runs s ≤ 4
  posts_over-le_max runs s h fails =
      omega (arith, posts_over-le runs s h fails, budget-le s.webhooks h)
