-- ===== src/Finality/Preserved.antt =====
-- Every event keeps the invariant of the trackers.
use stellar_royalty_splitter.Prelude.{
  ℕ, ◌+◌, ◌≡◌, refl, String, Bool, true, false, Option, none, some, leb, ltb, nat_eq, if◌then◌else◌,
  Bool-cases, Option-cases, inl, inr, arith, ==_self,
}
use stellar_royalty_splitter.Prelude.Map.{get, set, delete, modify}
use stellar_royalty_splitter.Prelude.Map.Laws.{get-set}
use mathlib.Core.Path.{subst}
use stellar_royalty_splitter.Finality.Backoff.{Config, compute_backoff_ms}
use stellar_royalty_splitter.Finality.Store.{
  Status, pending, confirmed, failed, timeout, FinalityRecord, new_record, with_tx_hash, polled,
  as_timeout, create_finality_record, set_finality_tx_hash, increment_poll_attempt,
  mark_finality_confirmed, mark_finality_failed, mark_finality_timeout,
}
use stellar_royalty_splitter.Finality.Tracker.{
  Loop, World, Phase, waiting, polling, PollResult, is_confirmed, is_failed, unsettled, timed_out,
  other_error, Event, tick, start, cancel, attach, wake, answer, new_loop, with_tracker, expire,
  end_loop, loop_head, start_tracking, is_tracking, cancel_tracking, update_tx_hash, ask_horizon,
  after_poll, resume, deliver, on_loop, step,
}
use stellar_royalty_splitter.Finality.Invariant.{
  Agrees, status, Sound, IsValid, settle-Sound, end-Sound, continue-Sound, abort-Sound, touch-Sound,
  insert-Sound,
}

polled-Agrees :
    (s : Status) (t : Option ℕ) (r : FinalityRecord)
    → s ≡ pending
    → Agrees s r
    → Agrees s (polled t r)
polled-Agrees pending t r is h = h
polled-Agrees confirmed t r is h = cc
polled-Agrees failed t r is h = cc
polled-Agrees timeout t r is h = cc

hashed-Agrees :
    (s : Status) (tx_hash : String) (r : FinalityRecord)
    → Agrees s r
    → Agrees s (with_tx_hash tx_hash r)
hashed-Agrees pending tx_hash r h = h
hashed-Agrees confirmed tx_hash r h = h
hashed-Agrees failed tx_hash r h = h
hashed-Agrees timeout tx_hash r h = h

module _ (cfg : Config) where
  expire-IsValid :
      (n : ℕ) (k l : Loop) (w : World)
      → IsValid w
      → get n w.loops ≡ some k
      → k.transaction_id ≡ l.transaction_id
      → IsValid (expire n l w)
  unfolding expire mark_finality_timeout
  expire-IsValid n k l w h here same =
      subst (λ i. Sound (modify i (as_timeout w.now) w.rows) (delete n w.loops) w.next_loop) same
        (settle-Sound h n k (as_timeout w.now) here (λ r. (refl, refl, refl)))

  loop_head-IsValid :
      (draw n : ℕ) (k l : Loop) (w : World)
      → IsValid w
      → get n w.loops ≡ some k
      → k.transaction_id ≡ l.transaction_id
      → IsValid (loop_head cfg draw n l w)
  unfolding loop_head increment_poll_attempt
  loop_head-IsValid draw n k l w h here same = elim (Bool-cases (ltb w.now l.deadline)) [
    | inr over ↦ rw over (expire-IsValid n k l w h here same)
    | inl early ↦ rw early (elim (Bool-cases l.aborted) [
      | inl stop ↦ rw stop (end-Sound h n)
      | inr go ↦
          let t = some (w.now + compute_backoff_ms cfg draw l.attempt) in
          let touched =
            touch-Sound h l.transaction_id (polled t) (λ r. refl)
              (λ r is.
                polled-Agrees r.status t r
                  (ground (
                    arith,
                    same,
                    subst (λ i. status (get i w.rows) ≡ some pending) same (h.is_pending n k here),
                  ))
                  (h.agrees l.transaction_id r is)) in
          rw go (continue-Sound touched n k _ here same)
    ])
  ]

  start_tracking-IsValid :
      (draw id : ℕ) (tx_hash : Option String) (w : World)
      → IsValid w
      → IsValid (start_tracking cfg draw id tx_hash w).1
  unfolding start_tracking create_finality_record
  start_tracking-IsValid draw id tx_hash w h = elim (Bool-cases (is_tracking id w)) [
    | inl active ↦ rw active h
    | inr idle ↦ elim (Option-cases (get id w.rows)) [
      | inr (r, is) ↦ rw (idle, is) h
      | inl absent ↦
          let l = new_loop cfg id tx_hash w.now in
          let r = new_record w.next_row_id id tx_hash w.now in
          let w' = with_tracker cfg id tx_hash (set id r w.rows) w in
          let placed : get w.next_loop w'.loops ≡ some l =
            rw (get-set w.next_loop w.next_loop l w.loops, ==_self w.next_loop) in
          rw (idle, absent)
            (loop_head-IsValid draw w.next_loop l l w'
              (insert-Sound h id r l absent refl (refl, refl) refl) placed refl)
    ]
  ]

  cancel_tracking-IsValid : (id : ℕ) (w : World) → IsValid w → IsValid (cancel_tracking id w).1
  unfolding cancel_tracking
  cancel_tracking-IsValid id w h = elim (Option-cases (get id w.trackers)) [
    | inl absent ↦ rw (absent, cancel_tracking) h
    | inr (n, is) ↦ rw (is, cancel_tracking) (abort-Sound h n)
  ]

  update_tx_hash-IsValid :
      (id : ℕ) (tx_hash : String) (w : World) → IsValid w → IsValid (update_tx_hash id tx_hash w)
  unfolding update_tx_hash set_finality_tx_hash
  update_tx_hash-IsValid id tx_hash w h =
      touch-Sound h id (with_tx_hash tx_hash) (λ r. refl)
        (λ r is. hashed-Agrees r.status tx_hash r (h.agrees id r is))

  if-IsValid : (b : Bool) (x y : World) → IsValid x → IsValid y → IsValid (if b then x else y)
  if-IsValid true x y h k = h
  if-IsValid false x y h k = k

  ask_horizon-IsValid :
      (draw n : ℕ) (l : Loop) (own stored : Option String) (w : World)
      → IsValid w
      → get n w.loops ≡ some l
      → IsValid (ask_horizon cfg draw n l own stored w)
  ask_horizon-IsValid draw n l (some a) stored w h here = continue-Sound h n l _ here refl
  ask_horizon-IsValid draw n l none (some a) w h here = continue-Sound h n l _ here refl
  ask_horizon-IsValid draw n l none none w h here = loop_head-IsValid draw n l _ w h here refl

  resume-IsValid :
      (draw n : ℕ) (l : Loop) (p : Phase) (w : World)
      → IsValid w
      → get n w.loops ≡ some l
      → IsValid (resume cfg draw n l p w)
  resume-IsValid draw n l polling w h here = h
  resume-IsValid draw n l (waiting t) w h here =
      if-IsValid (leb t w.now) _ w
        (if-IsValid l.aborted (end_loop n w) _ (end-Sound h n)
          (ask_horizon-IsValid draw n l l.tx_hash _ w h here))
        h

  after_poll-IsValid :
      (draw n : ℕ) (l : Loop) (result : PollResult) (w : World)
      → IsValid w
      → get n w.loops ≡ some l
      → IsValid (after_poll cfg draw n l result w)
  unfolding after_poll mark_finality_confirmed mark_finality_failed
  after_poll-IsValid draw n l (is_confirmed at_time fee) w h here =
      settle-Sound h n l _ here (λ r. (refl, refl, refl))
  after_poll-IsValid draw n l (is_failed message) w h here =
      settle-Sound h n l _ here (λ r. (refl, refl, refl))
  after_poll-IsValid draw n l unsettled w h here = loop_head-IsValid draw n l _ w h here refl
  after_poll-IsValid draw n l other_error w h here = loop_head-IsValid draw n l _ w h here refl
  after_poll-IsValid draw n l timed_out w h here =
      if-IsValid (ltb w.now l.deadline) _ _ (loop_head-IsValid draw n l _ w h here refl)
        (expire-IsValid n l l w h here refl)

  on_loop-IsValid :
      (run : ℕ → Loop → World → World) (n : ℕ) (w : World)
      → IsValid w
      → ((l : Loop) → get n w.loops ≡ some l → IsValid (run n l w))
      → IsValid (on_loop run n (get n w.loops) w)
  on_loop-IsValid run n w h runs = elim (Option-cases (get n w.loops)) [
    | inl absent ↦ rw absent h
    | inr (l, is) ↦ rw is (runs l is)
  ]

  deliver-IsValid :
      (draw n : ℕ) (l : Loop) (p : Phase) (result : PollResult) (w : World)
      → IsValid w
      → get n w.loops ≡ some l
      → IsValid (deliver cfg draw n l p result w)
  deliver-IsValid draw n l (waiting t) result w h here = h
  deliver-IsValid draw n l polling result w h here = after_poll-IsValid draw n l result w h here

  -- Every event keeps the invariant: each loop works on a pending row, no two loops on one, and the
  -- fields of every row agree with its status.
  pub step-IsValid : (e : Event) (w : World) → IsValid w → IsValid (step cfg e w)
  unfolding step
  step-IsValid (tick ms) w h = h
  step-IsValid (start draw id tx_hash) w h = start_tracking-IsValid draw id tx_hash w h
  step-IsValid (cancel id) w h = cancel_tracking-IsValid id w h
  step-IsValid (attach id tx_hash) w h = update_tx_hash-IsValid id tx_hash w h
  step-IsValid (wake n draw) w h =
      on_loop-IsValid (λ n l w. resume cfg draw n l l.phase w) n w h
        (λ l here. resume-IsValid draw n l l.phase w h here)
  step-IsValid (answer n draw result) w h =
      on_loop-IsValid (λ n l w. deliver cfg draw n l l.phase result w) n w h
        (λ l here. deliver-IsValid draw n l l.phase result w h here)
