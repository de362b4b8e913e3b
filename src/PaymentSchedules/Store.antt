-- ===== src/PaymentSchedules/Store.antt =====
-- backend/src/database/payment-schedules.js. A time is the number of its milliseconds: the ISO texts of
-- the source, all of one form, have the same order. `metadata` is its JSON text.
use stellar_royalty_splitter.Prelude.{
  ℕ, ◌+◌, String, Bool, true, false, not, ◌&&◌, ◌||◌, Option, none, some, List, [], ◌∷◌, ◌++◌, ◌==◌,
  string_eq, nat_eq, if◌then◌else◌, keep, find_first, update_where, take, drop, count_if, ltb, leb,
  or_else, is_some,
}
use stellar_royalty_splitter.Prelude.Text.{codes}
use stellar_royalty_splitter.Prelude.TextOrder.{text_less}
use stellar_royalty_splitter.Prelude.Sorting.{sort}

pub record PaymentSchedule : Type 0 where
  pub id : ℕ
  pub name : String
  pub type : String
  pub contract_id : String
  pub token_id : String
  pub wallet_address : String
  pub day_of_month : Option ℕ
  pub day_of_week : Option ℕ
  pub interval_days : Option ℕ
  pub anchor_date : Option ℕ
  pub hour_of_day : ℕ
  pub timezone : String
  pub enabled : Bool
  pub last_run_at : Option ℕ
  pub next_run_at : Option ℕ
  pub metadata : Option String
  pub created_at : ℕ
  pub updated_at : ℕ

pub record Store : Type 0 where
  pub rows : List PaymentSchedule
  pub next_id : ℕ
  pub writes : ℕ

-- The parameters of `createPaymentSchedule`, with their defaults filled in.
pub record NewSchedule : Type 0 where
  pub name : String
  pub type : String
  pub contract_id : String
  pub token_id : String
  pub wallet_address : String
  pub day_of_month : Option ℕ
  pub day_of_week : Option ℕ
  pub interval_days : Option ℕ
  pub anchor_date : Option ℕ
  pub hour_of_day : ℕ
  pub timezone : String
  pub metadata : Option String

abbrev pub has_id : ℕ → PaymentSchedule → Bool
has_id id s = s.id == id

-- `getPaymentSchedule`
abbrev pub get_payment_schedule : ℕ → Store → Option PaymentSchedule
get_payment_schedule id s = find_first (has_id id) s.rows

abbrev pub new_row : ℕ → NewSchedule → ℕ → PaymentSchedule
new_row id d now = record {
  id = id;
  name = d.name;
  type = d.type;
  contract_id = d.contract_id;
  token_id = d.token_id;
  wallet_address = d.wallet_address;
  day_of_month = d.day_of_month;
  day_of_week = d.day_of_week;
  interval_days = d.interval_days;
  anchor_date = d.anchor_date;
  hour_of_day = d.hour_of_day;
  timezone = d.timezone;
  enabled = true;
  last_run_at = none;
  next_run_at = none;
  metadata = d.metadata;
  created_at = now;
  updated_at = now;
}

-- `createPaymentSchedule`; the row that is read back is the one that was inserted.
unfoldable pub create_payment_schedule : NewSchedule → ℕ → Store → PaymentSchedule × Store
create_payment_schedule d now s =
    let row = new_row s.next_id d now in
    (row, record { rows = s.rows ++ (row ∷ []); next_id = s.next_id + 1; writes = s.writes + 1 })

abbrev is_of : Option String → Bool → PaymentSchedule → Bool
is_of contract include_disabled s =
    (not (is_some contract) || s.contract_id == or_else contract "")
    && (include_disabled || s.enabled)

-- `ORDER BY contractId, name`
abbrev listed_before : PaymentSchedule → PaymentSchedule → Bool
listed_before a b =
    text_less (codes a.contract_id) (codes b.contract_id)
    || (a.contract_id == b.contract_id && text_less (codes a.name) (codes b.name))

-- `listPaymentSchedules`
unfoldable pub list_payment_schedules : Option String → Bool → ℕ → ℕ → Store → List PaymentSchedule
list_payment_schedules contract include_disabled limit offset s =
    take limit (drop offset (sort listed_before (keep (is_of contract include_disabled) s.rows)))

-- `countPaymentSchedules`
unfoldable pub count_payment_schedules : Option String → Bool → Store → ℕ
count_payment_schedules contract include_disabled s =
    count_if (is_of contract include_disabled) s.rows

-- The fields of an update that are there.
pub record Updates : Type 0 where
  pub name : Option String
  pub day_of_month : Option (Option ℕ)
  pub day_of_week : Option (Option ℕ)
  pub interval_days : Option (Option ℕ)
  pub anchor_date : Option (Option ℕ)
  pub hour_of_day : Option ℕ
  pub timezone : Option String
  pub enabled : Option Bool
  pub next_run_at : Option (Option ℕ)
  pub metadata : Option (Option String)

abbrev is_empty : Updates → Bool
is_empty u = not (
    is_some u.name
    || (is_some u.day_of_month
        || (is_some u.day_of_week
            || (is_some u.interval_days
                || (is_some u.anchor_date
                    || (is_some u.hour_of_day
                        || (is_some u.timezone
                            || (is_some u.enabled
                                || (is_some u.next_run_at || is_some u.metadata)))))))))

-- `{ ...row, ...updates }`
abbrev pub merged : Updates → PaymentSchedule → PaymentSchedule
merged u s = record s {
  name = or_else u.name s.name;
  day_of_month = or_else u.day_of_month s.day_of_month;
  day_of_week = or_else u.day_of_week s.day_of_week;
  interval_days = or_else u.interval_days s.interval_days;
  anchor_date = or_else u.anchor_date s.anchor_date;
  hour_of_day = or_else u.hour_of_day s.hour_of_day;
  timezone = or_else u.timezone s.timezone;
  enabled = or_else u.enabled s.enabled;
  next_run_at = or_else u.next_run_at s.next_run_at;
  metadata = or_else u.metadata s.metadata;
}

-- `UPDATE payment_schedules SET … WHERE id = ?`
abbrev pub update_row : ℕ → (PaymentSchedule → PaymentSchedule) → Store → Store
update_row id f s = record s { rows = update_where (has_id id) f s.rows; writes = s.writes + 1 }

-- `updatePaymentSchedule`
unfoldable pub update_payment_schedule : ℕ → Updates → ℕ → Store → Option PaymentSchedule × Store
update_payment_schedule id u now s =
    let after =
      update_row id (λ (r : PaymentSchedule). record (merged u r) { updated_at = now }) s in
    if is_empty u then (get_payment_schedule id s, s) else (get_payment_schedule id after, after)

-- `disablePaymentSchedule`
unfoldable pub disable_payment_schedule : ℕ → ℕ → Store → Store
disable_payment_schedule id now =
    update_row id (λ (r : PaymentSchedule). record r { enabled = false; updated_at = now })

-- `deletePaymentSchedule`
unfoldable pub delete_payment_schedule : ℕ → Store → Store
delete_payment_schedule id s = record s {
  rows = keep (λ r. not (has_id id r)) s.rows;
  writes = s.writes + 1;
}

abbrev pub is_due : ℕ → PaymentSchedule → Bool
is_due now s = s.enabled && elim s.next_run_at [ none ↦ false | some t ↦ leb t now ]

abbrev pub runs_before : PaymentSchedule → PaymentSchedule → Bool
runs_before a b = ltb (or_else a.next_run_at 0) (or_else b.next_run_at 0)

-- `getSchedulesDue`
unfoldable pub get_schedules_due : ℕ → Store → List PaymentSchedule
get_schedules_due now s = sort runs_before (keep (is_due now) s.rows)

-- `markScheduleRan`
unfoldable pub mark_schedule_ran : ℕ → ℕ → ℕ → Store → Store
mark_schedule_ran id ran_at next_at = update_row id (λ (r : PaymentSchedule). record r {
  last_run_at = some ran_at;
  next_run_at = some next_at;
  updated_at = ran_at;
})

-- `setNextRunAt`
unfoldable pub set_next_run_at : ℕ → ℕ → ℕ → Store → Store
set_next_run_at id next_at now =
    update_row id
      (λ (r : PaymentSchedule). record r { next_run_at = some next_at; updated_at = now })

abbrev is_upcoming : Option String → PaymentSchedule → Bool
is_upcoming contract s =
    s.enabled
    && (is_some s.next_run_at && (not (is_some contract) || s.contract_id == or_else contract ""))

-- `getUpcomingSchedules`
unfoldable pub get_upcoming_schedules : Option String → ℕ → Store → List PaymentSchedule
get_upcoming_schedules contract limit s =
    take limit (sort runs_before (keep (is_upcoming contract) s.rows))
