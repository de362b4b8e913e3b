-- ===== src/Webhooks/Progress.antt =====
-- One run of the retry job, row by row: it treats every due row by its answer, leaves the others,
-- and leaves none that is due at the time of the run.
use stellar_royalty_splitter.Prelude.{
  ℕ, ◌+◌, ◌≡◌, refl, String, Bool, true, false, ◌&&◌, none, some, List, [], ◌∷◌, leb, if◌then◌else◌,
  any, keep, update_where, arith, nat_eq, Bool-cases, inl, inr, map, sym, ap, ◌∙◌,
}
use mathlib.Core.Path.{subst, ap₂}
use mathlib.Core.List.{map-map, map-id}
use stellar_royalty_splitter.Webhooks.Store.{
  Webhook, Store, has_id, is_due, settled, rescheduled_with, reset_webhook_retry_count,
  update_webhook_retry_state_with_payload,
}
use stellar_royalty_splitter.Webhooks.Delivery.{
  Outcome, delivered, failed, backoff_ms, max_webhook_retries,
}
use stellar_royalty_splitter.Webhooks.RetryJob.{
  Report, parses, retry_once, retry_all, execute_webhook_retry_run,
}

-- No id stands twice.
abbrev pub Distinct : List Webhook → Type 0
Distinct [] = Unit
Distinct (w ∷ rows) = (any (has_id w.id) rows ≡ false) × Distinct rows

-- What an attempt makes of a row, from the row `l` that was read when the run began.
unfoldable pub after_answer : ℕ → Webhook → Outcome → Webhook → Webhook
after_answer now l delivered = settled
after_answer now l (failed message) =
    if leb max_webhook_retries (l.retry_count + 1)
    then rescheduled_with (l.retry_count + 1) none l.payload
    else rescheduled_with (l.retry_count + 1) (some (now + backoff_ms (l.retry_count + 1)))
        l.payload

module _ (now : ℕ) (is_json : String → Bool) (answers : Webhook → Outcome) where
  abbrev pub attempt : Webhook → Webhook
  attempt w = if parses is_json w.payload then after_answer now w (answers w) w else w

  -- The specification of a run: a due row is attempted, any other is left.
  abbrev pub row_step : Webhook → Webhook
  row_step w = if is_due now w then attempt w else w

  -- What one round of the loop does to a row, and what the whole loop does to it.
  abbrev round : Webhook → Webhook → Webhook
  round l w =
      if has_id l.id w && parses is_json l.payload then after_answer now l (answers l) w else w

  abbrev rounds : List Webhook → Webhook → Webhook
  rounds [] w = w
  rounds (l ∷ due) w = rounds due (round l w)

  pub retry_once-webhooks :
      (l : Webhook) (answer : Outcome) (acc : Report × Store)
      → (retry_once now l answer acc).1.webhooks
        ≡ update_where (has_id l.id) (after_answer now l answer) acc.1.webhooks
  unfolding retry_once reset_webhook_retry_count update_webhook_retry_state_with_payload
      after_answer
  retry_once-webhooks l delivered acc = refl
  retry_once-webhooks l (failed message) acc =
      elim (Bool-cases (leb max_webhook_retries (l.retry_count + 1))) [
        | inl last ↦ rw last
        | inr more ↦ rw more
      ]

  map-round :
      (l : Webhook) (rows : List Webhook)
      → parses is_json l.payload ≡ true
      → update_where (has_id l.id) (after_answer now l (answers l)) rows ≡ map (round l) rows
  map-round l [] valid = refl
  map-round l (w ∷ rows) valid = ground (arith, map-round l rows valid)

  map-round_broken :
      (l : Webhook) (due rows : List Webhook)
      → parses is_json l.payload ≡ false
      → map (rounds due) rows ≡ map (rounds (l ∷ due)) rows
  map-round_broken l due [] broken = refl
  map-round_broken l due (w ∷ rows) broken = ground (arith, map-round_broken l due rows broken)

  retry_all-webhooks :
      (due : List Webhook) (acc : Report × Store)
      → (retry_all now is_json answers due acc).1.webhooks ≡ map (rounds due) acc.1.webhooks
  unfolding retry_all
  retry_all-webhooks [] acc = sym (map-id acc.1.webhooks)
  retry_all-webhooks (l ∷ due) acc = elim (Bool-cases (parses is_json l.payload)) [
    | inl valid ↦
        rw (valid, retry_all)
          (retry_all-webhooks due (retry_once now l (answers l) acc)
            ∙ ap (map (rounds due))
                (retry_once-webhooks l (answers l) acc ∙ map-round l acc.1.webhooks valid)
            ∙ map-map (rounds due) (round l) acc.1.webhooks)
    | inr broken ↦
        rw (broken, retry_all)
          (retry_all-webhooks due acc ∙ map-round_broken l due acc.1.webhooks broken)
  ]

  rounds_absent :
      (due : List Webhook) (w : Webhook) → any (has_id w.id) due ≡ false → rounds due w ≡ w
  rounds_absent [] w h = refl
  rounds_absent (l ∷ due) w h = ground (arith, rounds_absent due w)

  map-rounds_skip :
      (l : Webhook) (due rows : List Webhook)
      → any (has_id l.id) rows ≡ false
      → map (rounds (l ∷ due)) rows ≡ map (rounds due) rows
  map-rounds_skip l due [] h = refl
  map-rounds_skip l due (w ∷ rows) h = ground (arith, map-rounds_skip l due rows)

  any-keep_absent :
      (p : Webhook → Bool) (id : ℕ) (rows : List Webhook)
      → any (has_id id) rows ≡ false
      → any (has_id id) (keep p rows) ≡ false
  any-keep_absent p id [] h = refl
  any-keep_absent p id (w ∷ rows) h = ground (arith, any-keep_absent p id rows)

  pub after_answer-id : (l w : Webhook) (answer : Outcome) → (after_answer now l answer w).id ≡ w.id
  unfolding after_answer
  after_answer-id l w delivered = refl
  after_answer-id l w (failed message) = ground arith

  -- The row at the head, when the loop goes over the list `due`.
  head_and_tail :
      (w : Webhook) (rows due : List Webhook)
      → keep (is_due now) (w ∷ rows) ≡ due
      → rounds due w ≡ row_step w
      → map (rounds due) rows ≡ map row_step rows
      → map (rounds (keep (is_due now) (w ∷ rows))) (w ∷ rows) ≡ map row_step (w ∷ rows)
  head_and_tail w rows due is head tail =
      subst (λ ks. map (rounds ks) (w ∷ rows) ≡ map row_step (w ∷ rows)) (sym is)
        (ap₂ ◌∷◌ head tail)

  round_self :
      (w : Webhook) (due : List Webhook)
      → any (has_id w.id) due ≡ false
      → is_due now w ≡ true
      → rounds (w ∷ due) w ≡ row_step w
  round_self w due absent is =
      let attempted : round w w ≡ row_step w = ground arith in
      let same_id : (row_step w).id ≡ w.id = ground (arith, after_answer-id w w (answers w)) in
      ap (rounds due) attempted ∙ rounds_absent due (row_step w) (rw same_id absent)

  rounds-eq-row_step :
      (rows : List Webhook)
      → Distinct rows
      → map (rounds (keep (is_due now) rows)) rows ≡ map row_step rows
  rounds-eq-row_step [] h = refl
  rounds-eq-row_step (w ∷ rows) h =
      let due = keep (is_due now) rows in
      let absent = any-keep_absent (is_due now) w.id rows h.0 in
      let rest = rounds-eq-row_step rows h.1 in
      elim (Bool-cases (is_due now w)) [
        | inr idle ↦
            head_and_tail w rows due (ground arith) (rounds_absent due w absent ∙ (ground arith))
              rest
        | inl is ↦
            head_and_tail w rows (w ∷ due) (ground arith) (round_self w due absent is)
              (map-rounds_skip w due rows h.0 ∙ rest)
      ]

  -- One run of the job, with no other writes meanwhile, treats the table row by row: a row that is enabled, below four retries and
  -- past its retry time is attempted (reset if it is delivered, else rescheduled by the backoff
  -- table, or unscheduled at the fourth failure; left if its payload does not parse), and every
  -- other row is left as it is, if no id stands twice.
  pub retry_run-webhooks :
      (s : Store)
      → Distinct s.webhooks
      → (execute_webhook_retry_run now is_json answers s).1.webhooks ≡ map row_step s.webhooks
  unfolding execute_webhook_retry_run
  retry_run-webhooks s h =
      retry_all-webhooks (keep (is_due now) s.webhooks) _ ∙ rounds-eq-row_step s.webhooks h
