-- ===== src/Finality/Tests.antt =====
-- A transaction that is tracked, polled and confirmed, one that is cancelled, and their routes.
use stellar_royalty_splitter.Prelude.{◌≡◌, refl, true, false, none, some, arith, nat_eq}
use stellar_royalty_splitter.Prelude.Map.{get, set, modify, delete, has}
use stellar_royalty_splitter.Finality.Backoff.{default_config, compute_backoff_ms}
use stellar_royalty_splitter.Finality.Store.{
  FinalityRecord, pending, confirmed, create_finality_record, increment_poll_attempt,
  mark_finality_confirmed,
}
use stellar_royalty_splitter.Finality.Tracker.{
  World, Loop, polling, is_confirmed, unsettled, tick, start, cancel, wake, answer, step,
  start_tracking, cancel_tracking, is_tracking, loop_head, after_poll,
}
use stellar_royalty_splitter.Finality.Invariant.{IsValid, status_of}
use stellar_royalty_splitter.Finality.Preserved.{step-IsValid}
use stellar_royalty_splitter.Finality.Reached.{Reaches, stay, after, initial, reached-IsValid}
use stellar_royalty_splitter.Finality.Settled.{outcome, reached_settled}
use stellar_royalty_splitter.Finality.Window.{verdict, Ended, answer_past_deadline}
use stellar_royalty_splitter.Finality.Routes.{
  absent, error, parse_transaction_id, number, post_finality, post_finality_restart_fails,
}

abbrev tracked : World
tracked = step default_config (start 500 7 (some "ab")) (initial 0)

abbrev asking : World
asking = step default_config (wake 0 500) (step default_config (tick 100) tracked)

abbrev settled : World
settled = step default_config (answer 0 500 (is_confirmed (some 90) (some "100"))) asking

abbrev late : World
late = step default_config (tick 600000) asking

abbrev cancelled : World
cancelled = step default_config (tick 100) (step default_config (cancel 7) tracked)

abbrev to_asking : Reaches default_config (initial 0) asking
to_asking = after (after (after stay (start 500 7 (some "ab"))) (tick 100)) (wake 0 500)

run_tests :
    (status_of 7 tracked ≡ some pending)
    × (is_tracking 7 tracked ≡ true)
    × (status_of 7 settled ≡ some confirmed)
    × (is_tracking 7 settled ≡ true)
    × (status_of 7 cancelled ≡ some pending)
    × (is_tracking 7 cancelled ≡ false)
unfolding step start_tracking cancel_tracking is_tracking create_finality_record
    increment_poll_attempt mark_finality_confirmed compute_backoff_ms loop_head after_poll get set
    modify delete has
run_tests = (refl, refl, refl, refl, refl, refl)

path_tests :
    (parse_transaction_id "7" ≡ some 7)
    × (parse_transaction_id "120" ≡ some 120)
    × (parse_transaction_id "07" ≡ none)
    × (parse_transaction_id "-3" ≡ none)
    × (parse_transaction_id "" ≡ none)
unfolding parse_transaction_id number
path_tests = (refl, refl, refl, refl, refl)

asking-IsValid : IsValid asking
asking-IsValid = reached-IsValid default_config 0 asking to_asking

reached-IsValid_example : IsValid asking
reached-IsValid_example = reached-IsValid default_config 0 asking to_asking

step-IsValid_example : IsValid settled
step-IsValid_example =
    step-IsValid default_config (answer 0 500 (is_confirmed (some 90) (some "100"))) asking
      asking-IsValid

settled-IsValid : IsValid settled
settled-IsValid =
    reached-IsValid default_config 0 settled
      (after to_asking (answer 0 500 (is_confirmed (some 90) (some "100"))))

abbrev restarted : World
restarted = step default_config (start 500 7 (some "cd")) settled

reached_settled_example : outcome (get 7 restarted.rows) ≡ outcome (get 7 settled.rows)
unfolding step start_tracking create_finality_record increment_poll_attempt mark_finality_confirmed
    compute_backoff_ms loop_head after_poll get set modify delete is_tracking has
reached_settled_example =
    reached_settled default_config 7 confirmed settled restarted settled-IsValid refl (λ e. cc)
      (after stay (start 500 7 (some "cd")))

abbrev asking_loop : Loop
asking_loop = record {
  transaction_id = 7;
  tx_hash = some "ab";
  aborted = false;
  deadline = 600000;
  attempt = 0;
  phase = polling;
}

late-IsValid : IsValid late
late-IsValid = reached-IsValid default_config 0 late (after to_asking (tick 600000))

answer_past_deadline_example :
    Ended 0 7 (verdict unsettled) (step default_config (answer 0 500 unsettled) late)
unfolding step start_tracking create_finality_record increment_poll_attempt compute_backoff_ms
    loop_head get set modify is_tracking has
answer_past_deadline_example =
    answer_past_deadline default_config 500 0 asking_loop late late-IsValid refl unsettled refl
      (omega arith)

abbrev cancelled_row : FinalityRecord
cancelled_row = record {
  id = 1;
  transaction_id = 7;
  tx_hash = some "ab";
  status = pending;
  confirmations = 0;
  fee_paid = none;
  submission_at = 0;
  first_confirmation_at = none;
  final_status = none;
  final_status_at = none;
  error_message = none;
  poll_attempts = 1;
  next_poll_at = some 100;
}

post_finality_restart_fails_example :
    post_finality default_config (λ id. true) 500 "7" absent cancelled
    ≡ (error 500 "internal_error", cancelled)
unfolding step start_tracking cancel_tracking create_finality_record increment_poll_attempt
    compute_backoff_ms loop_head get set modify is_tracking has parse_transaction_id number delete
post_finality_restart_fails_example =
    post_finality_restart_fails default_config (λ id. true) 500 "7" 7 cancelled_row cancelled refl
      refl refl refl refl
