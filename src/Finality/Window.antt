-- ===== src/Finality/Window.antt =====
-- How a loop ends: at an answer that comes behind its deadline, at a final answer, and by an abort.
use stellar_royalty_splitter.Prelude.{
  ℕ, ◌≤◌, ◌≡◌, ◌≢◌, refl, sym, ap, ◌∙◌, String, Bool, true, false, Option, none, some, leb, ltb,
  nat_eq, if◌then◌else◌, Option-cases, inl, inr, arith, ==_self, ◌⊎◌,
}
use stellar_royalty_splitter.Prelude.Map.{Map, get, delete, modify}
use stellar_royalty_splitter.Prelude.Map.Laws.{get-delete, get-modify_self}
use stellar_royalty_splitter.Prelude.Map.Cases.{get-delete_cases}
use mathlib.Core.Path.{subst}
use stellar_royalty_splitter.Finality.Backoff.{Config}
use stellar_royalty_splitter.Finality.Store.{
  Status, pending, confirmed, failed, timeout, FinalityRecord, Rows, as_timeout,
  mark_finality_confirmed, mark_finality_failed, mark_finality_timeout,
}
use stellar_royalty_splitter.Finality.Tracker.{
  Loop, World, Phase, waiting, polling, PollResult, is_confirmed, is_failed, unsettled, timed_out,
  other_error, wake, answer, expire, end_loop, loop_head, is_tracking, start_tracking,
  already_active, after_poll, resume, deliver, step,
}
use stellar_royalty_splitter.Finality.Invariant.{status, status_of, IsValid}

-- The status that an answer leaves, behind the deadline.
abbrev pub verdict : PollResult → Status
verdict (is_confirmed created_at fee_paid) = confirmed
verdict (is_failed error_message) = failed
verdict unsettled = timeout
verdict timed_out = timeout
verdict other_error = timeout

-- The loop `n` is over, and its row has the status `s`.
abbrev pub Ended : ℕ → ℕ → Status → World → Type 0
Ended n id s w = (get n w.loops ≡ none) × (status_of id w ≡ some s)

deleted : (n : ℕ) (loops : Map ℕ Loop) → get n (delete n loops) ≡ none
deleted n loops = rw (get-delete n n loops, ==_self n)

marked :
    (id : ℕ) (rows : Rows) (f : FinalityRecord → FinalityRecord) (s : Status)
    → status (get id rows) ≡ some pending
    → ((r : FinalityRecord) → (f r).status ≡ s)
    → status (get id (modify id f rows)) ≡ some s
marked id rows f s is final = elim (Option-cases (get id rows)) [
  | inl absent ↦ ground (arith)
  | inr (r, there) ↦ rw (get-modify_self id f r rows there) (ap some (final r))
]

-- No loop works on the transaction, but a start is ignored as if one did.
abbrev pub Leaked : Config → ℕ → ℕ → World → Type 0
Leaked cfg draw id v =
    ((m : ℕ) (k : Loop) → get m v.loops ≡ some k → k.transaction_id ≢ id)
    × ((tx_hash : Option String) → start_tracking cfg draw id tx_hash v ≡ (already_active, v))

if_true : (b : Bool) (x y : World) → b ≡ true → (if b then x else y) ≡ x
if_true true x y h = refl
if_true false x y h = cc

module _ (cfg : Config) (draw n : ℕ) (l : Loop) (w : World) (h : IsValid w)
    (here : get n w.loops ≡ some l) where
  expire-Ended :
      (k : Loop)
      → k.transaction_id ≡ l.transaction_id
      → Ended n l.transaction_id timeout (expire n k w)
  unfolding expire mark_finality_timeout
  expire-Ended k same = (
    deleted n w.loops,
    rw same (
        marked l.transaction_id w.rows (as_timeout w.now) timeout (h.is_pending n l here)
          (λ r. refl)),
  )

  loop_head-Ended :
      (k : Loop)
      → k.transaction_id ≡ l.transaction_id
      → ltb w.now k.deadline ≡ false
      → Ended n l.transaction_id timeout (loop_head cfg draw n k w)
  unfolding loop_head
  loop_head-Ended k same over = rw (over, loop_head) (expire-Ended k same)

  after_poll-Ended :
      (result : PollResult)
      → ltb w.now l.deadline ≡ false
      → Ended n l.transaction_id (verdict result) (after_poll cfg draw n l result w)
  unfolding after_poll mark_finality_confirmed mark_finality_failed
  after_poll-Ended (is_confirmed at_time fee) over = (
    deleted n w.loops,
    marked l.transaction_id w.rows _ confirmed (h.is_pending n l here) (λ r. refl),
  )
  after_poll-Ended (is_failed message) over = (
    deleted n w.loops,
    marked l.transaction_id w.rows _ failed (h.is_pending n l here) (λ r. refl),
  )
  after_poll-Ended unsettled over = loop_head-Ended _ refl over
  after_poll-Ended other_error over = loop_head-Ended _ refl over
  after_poll-Ended timed_out over = rw (over, after_poll) (expire-Ended l refl)

  deliver-polling :
      (p : Phase) (result : PollResult)
      → p ≡ polling
      → deliver cfg draw n l p result w ≡ after_poll cfg draw n l result w
  deliver-polling polling result is = refl
  deliver-polling (waiting t) result is = cc

  step-answer :
      (result : PollResult)
      → l.phase ≡ polling
      → step cfg (answer n draw result) w ≡ after_poll cfg draw n l result w
  unfolding step
  step-answer result polls = rw here (deliver-polling l.phase result polls)

  -- Behind its deadline a loop ends at the next answer of Horizon, whatever the answer is: the row is
  -- confirmed or failed as Horizon says, and else timed out.
  pub answer_past_deadline :
      (result : PollResult)
      → l.phase ≡ polling
      → l.deadline ≤ w.now
      → Ended n l.transaction_id (verdict result) (step cfg (answer n draw result) w)
  answer_past_deadline result polls over =
      subst (Ended n l.transaction_id (verdict result)) (sym (step-answer result polls))
        (after_poll-Ended result (ground arith))

  others :
      (m : ℕ) (k : Loop) → get m (delete n w.loops) ≡ some k → k.transaction_id ≢ l.transaction_id
  others m k is same =
      let (other, there) = get-delete_cases m n k w.loops is in
      ground (arith, h.alone n m l k here there (sym same))

  after_poll-Leaked :
      (result : PollResult)
      → is_tracking l.transaction_id w ≡ true
      → (verdict result ≡ confirmed) ⊎ (verdict result ≡ failed)
      → Leaked cfg draw l.transaction_id (after_poll cfg draw n l result w)
  unfolding after_poll start_tracking is_tracking
  after_poll-Leaked (is_confirmed at_time fee) tracked final = (others, λ tx_hash. rw tracked)
  after_poll-Leaked (is_failed message) tracked final = (others, λ tx_hash. rw tracked)
  after_poll-Leaked unsettled tracked final = elim final [ inl a ↦ cc | inr b ↦ cc ]
  after_poll-Leaked other_error tracked final = elim final [ inl a ↦ cc | inr b ↦ cc ]
  after_poll-Leaked timed_out tracked final = elim final [ inl a ↦ cc | inr b ↦ cc ]

  -- An answer that is final for the row leaves the transaction registered as tracked, though no
  -- loop works on it any more, and a later start is ignored.
  pub final_answer_keeps_tracker :
      (result : PollResult)
      → l.phase ≡ polling
      → is_tracking l.transaction_id w ≡ true
      → (verdict result ≡ confirmed) ⊎ (verdict result ≡ failed)
      → Leaked cfg draw l.transaction_id (step cfg (answer n draw result) w)
  final_answer_keeps_tracker result polls tracked final =
      subst (Leaked cfg draw l.transaction_id) (sym (step-answer result polls))
        (after_poll-Leaked result tracked final)

  resume-aborted :
      (p : Phase) (t : ℕ)
      → p ≡ waiting t
      → t ≤ w.now
      → l.aborted ≡ true
      → resume cfg draw n l p w ≡ end_loop n w
  resume-aborted polling t is over stop = cc
  resume-aborted (waiting u) t is over stop =
      let same : u ≡ t = cc in
      let due : leb u w.now ≡ true = ground arith in
      if_true (leb u w.now) _ w due ∙ if_true l.aborted (end_loop n w) _ stop

  -- A loop that was aborted in its delay ends when it wakes, and changes no row.
  pub aborted_wake_ends :
      (t : ℕ)
      → l.phase ≡ waiting t
      → t ≤ w.now
      → l.aborted ≡ true
      → step cfg (wake n draw) w ≡ end_loop n w
  unfolding step
  aborted_wake_ends t waits over stop = rw here (resume-aborted l.phase t waits over stop)
