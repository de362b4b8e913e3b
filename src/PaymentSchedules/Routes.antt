-- ===== src/PaymentSchedules/Routes.antt =====
-- The handlers of backend/src/routes/payment-schedules.js that change a schedule. `is_address` is the
-- test of a Stellar address, which rests on the SDK. An error that a handler raises is answered by
-- Express; a text's length is that of its code points. The details of an update leave out the updates.
use stellar_royalty_splitter.Prelude.{
  ℕ, String, Bool, true, not, ◌&&◌, ◌||◌, Option, none, some, List, [], ◌∷◌, ◌==◌, nat_eq,
  string_eq, if◌then◌else◌, any, length, leb, is_some,
}
use stellar_royalty_splitter.Prelude.Text.{Text, codes, parse_decimal, nan, pos, neg, is_strkey}
use stellar_royalty_splitter.Schedule.Months.{Date}
use stellar_royalty_splitter.Audit.{string, number, fields, Log, add_audit_log}
use stellar_royalty_splitter.PaymentSchedules.Store.{
  PaymentSchedule, Store, NewSchedule, Updates, merged, get_payment_schedule,
  create_payment_schedule, update_payment_schedule, delete_payment_schedule, set_next_run_at,
}
use stellar_royalty_splitter.PaymentSchedules.Job.{World, Clock, next_run}

pub data Reply : Type 0 where
  bad_request : List String → Reply
  invalid_id not_found raised : Reply
  created : PaymentSchedule → Reply
  updated : Option PaymentSchedule → Reply
  deleted : Reply

-- A field and whether it passes.
abbrev pub Check : Type 0
Check = String × Bool

abbrev pub issues : List Check → List String
issues [] = []
issues ((field, passes) ∷ checks) =
    let rest = issues checks in if passes then rest else field ∷ rest

abbrev pub between : ℕ → ℕ → ℕ → Bool
between low high n = leb low n && leb n high

abbrev pub optional {ℓ} : {A : Type ℓ} → (A → Bool) → Option A → Bool
optional p none = true
optional p (some a) = p a

abbrev has_length : ℕ → ℕ → String → Bool
has_length low high s = between low high (length (codes s))

abbrev pub schedule_types : List String
schedule_types = "monthly" ∷ ("biweekly" ∷ ("weekly" ∷ ("custom" ∷ [])))

module _ (is_address : Text → Bool) where
  abbrev pub base_checks : NewSchedule → List Check
  base_checks d =
      ("hourOfDay", leb d.hour_of_day 23)
      ∷ (("type", any (λ t. d.type == t) schedule_types)
          ∷ (("intervalDays", optional (between 1 365) d.interval_days)
              ∷ (("dayOfMonth", optional (between 1 28) d.day_of_month)
                  ∷ (("dayOfWeek", optional (λ n. leb n 6) d.day_of_week)
                      ∷ (("name", has_length 1 100 d.name)
                          ∷ (("contractId", is_strkey b'C' (codes d.contract_id))
                              ∷ (("tokenId", is_strkey b'C' (codes d.token_id))
                                  ∷ (("walletAddress", is_address (codes d.wallet_address))
                                      ∷ (("timezone", has_length 1 50 d.timezone) ∷ [])))))))))

  abbrev pub refined_checks : NewSchedule → List Check
  refined_checks d =
      ("dayOfMonth", not (d.type == "monthly") || is_some d.day_of_month)
      ∷ (("dayOfWeek", not (d.type == "weekly") || is_some d.day_of_week)
          ∷ ((
            "anchorDate",
            not (d.type == "biweekly" || d.type == "custom") || is_some d.anchor_date,
          )
              ∷ (("intervalDays", not (d.type == "custom") || is_some d.interval_days) ∷ [])))

  -- The refinements of `createScheduleSchema` run on a well-formed body only.
  abbrev pub create_issues : NewSchedule → List String
  create_issues d =
      let wrong = issues (base_checks d) in
      if length wrong == 0 then issues (refined_checks d) else wrong

  module _ (calendar : Date → ℕ) (clock : Clock) where
    abbrev with_next_run : PaymentSchedule → Option ℕ → Store → PaymentSchedule × Store
    with_next_run row none s = (row, s)
    with_next_run row (some t) s =
        (record row { next_run_at = some t }, set_next_run_at row.id t clock.now.ms s)

    abbrev answered : Reply → Option Log → World → Reply × World
    answered reply none w = (raised, w)
    answered reply (some log) w = (reply, record w { log = log })

    -- `POST /`
    unfoldable pub post_schedule : NewSchedule → World → Reply × World
    unfolding next_run create_payment_schedule set_next_run_at add_audit_log is_strkey
    post_schedule d w =
        let (row, created_in) = create_payment_schedule d clock.now.ms w.schedules in
        let (shown, stored) = with_next_run row (next_run calendar row clock.now) created_in in
        let details = fields (
          (codes "scheduleId", number row.id)
          ∷ ((codes "type", string d.type) ∷ ((codes "name", string d.name) ∷ []))) in
        if length (create_issues d) == 0
        then answered (created shown)
            (add_audit_log d.contract_id "payment_schedule_created" (some d.wallet_address) details
              clock.text w.log)
            (record w { schedules = stored })
        else (bad_request (create_issues d), w)

    -- `updateScheduleSchema`
    abbrev update_issues : Updates → List String
    update_issues u = issues (
        ("name", optional (has_length 1 100) u.name)
        ∷ (("dayOfMonth", optional (optional (between 1 28)) u.day_of_month)
            ∷ (("dayOfWeek", optional (optional (λ n. leb n 6)) u.day_of_week)
                ∷ (("intervalDays", optional (optional (between 1 365)) u.interval_days)
                    ∷ (("hourOfDay", optional (λ n. leb n 23) u.hour_of_day)
                        ∷ (("timezone", optional (has_length 1 50) u.timezone) ∷ []))))))

    abbrev changes_timing : Updates → Bool
    changes_timing u =
        is_some u.day_of_month
        || (is_some u.day_of_week
            || (is_some u.interval_days
                || (is_some u.anchor_date || (is_some u.hour_of_day || is_some u.enabled))))

    abbrev recomputed : ℕ → Option ℕ → Store → Store
    recomputed id none s = s
    recomputed id (some t) s = set_next_run_at id t clock.now.ms s

    abbrev patch_existing : ℕ → Updates → Option PaymentSchedule → World → Reply × World
    patch_existing id u none w = (not_found, w)
    patch_existing id u (some existing) w =
        let (row, changed) = update_payment_schedule id u clock.now.ms w.schedules in
        let m = merged u existing in
        let stored =
          if changes_timing u && m.enabled
          then recomputed id (next_run calendar m clock.now) changed
          else changed in
        if length (update_issues u) == 0
        then answered (updated row)
            (add_audit_log existing.contract_id "payment_schedule_updated" (some "system")
              (fields ((codes "scheduleId", number id) ∷ [])) clock.text w.log)
            (record w { schedules = stored })
        else (bad_request (update_issues u), w)

    -- `PATCH /:id`
    unfoldable pub patch_schedule : Text → Updates → World → Reply × World
    unfolding parse_decimal next_run update_payment_schedule set_next_run_at add_audit_log
    patch_schedule param u w = elim (parse_decimal param) [
      | nan ↦ (invalid_id, w)
      | neg n ↦ (invalid_id, w)
      | pos n ↦
          if leb 1 n
          then patch_existing n u (get_payment_schedule n w.schedules) w
          else (invalid_id, w)
    ]

    abbrev delete_existing : ℕ → Option PaymentSchedule → World → Reply × World
    delete_existing id none w = (not_found, w)
    delete_existing id (some existing) w =
        answered deleted
          (add_audit_log existing.contract_id "payment_schedule_deleted" (some "system")
            (fields ((codes "scheduleId", number id) ∷ ((codes "name", string existing.name) ∷ [])))
            clock.text w.log)
          (record w { schedules = delete_payment_schedule id w.schedules })

    -- `DELETE /:id`
    unfoldable pub delete_schedule : Text → World → Reply × World
    unfolding parse_decimal delete_payment_schedule add_audit_log
    delete_schedule param w = elim (parse_decimal param) [
      | nan ↦ (invalid_id, w)
      | neg n ↦ (invalid_id, w)
      | pos n ↦
          if leb 1 n
          then delete_existing n (get_payment_schedule n w.schedules) w
          else (invalid_id, w)
    ]
