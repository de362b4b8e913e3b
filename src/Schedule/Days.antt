-- ===== src/Schedule/Days.antt =====
-- `nextWeekly` and `nextInterval` of backend/src/schedule-calculator.js. An instant is the number of
-- its milliseconds from 1970 on, a Thursday; an hour is below 24. `Math.floor` of a negative quotient
-- is written out, for an anchor that lies ahead.
use stellar_royalty_splitter.Prelude.{
  ℕ, zero, suc, ◌+◌, ◌-◌, ◌*◌, ◌/◌, ◌%◌, ◌≤◌, ◌<◌, ◌≡◌, refl, sym, ◌∙◌, false, leb, if◌then◌else◌,
  Bool-cases, inl, inr, arith, ◌⊎◌,
}
use native.Mathlib.Nat.{lt-mul-div-succ, mul-div-le}
use mathlib.Core.Path.{subst}

abbrev pub day_ms : ℕ
day_ms = 86400000

abbrev pub day_of : ℕ → ℕ
day_of t = t / day_ms

-- `getUTCDay`
abbrev pub weekday : ℕ → ℕ
weekday day = (day + 4) % 7

-- `atHour`, on a day.
abbrev pub at_hour : ℕ → ℕ → ℕ
at_hour day hour = day * day_ms + hour * 3600000

-- `nextWeekly`
unfoldable pub next_weekly : ℕ → ℕ → ℕ → ℕ
next_weekly now day_of_week hour =
    let days_until = (day_of_week % 7 + 7 - weekday (day_of now)) % 7 in
    let candidate = at_hour (day_of now + days_until) hour in
    if leb candidate now then at_hour (day_of now + days_until + 7) hour else candidate

-- The day `anchor + (cyclesPassed + 1) * intervalDays`.
unfoldable pub next_cycle : ℕ → ℕ → ℕ → ℕ
next_cycle today anchor interval =
    if leb anchor today
    then anchor + ((today - anchor) / interval + 1) * interval
    else anchor - ((anchor - today + interval - 1) / interval - 1) * interval

-- `nextInterval`
unfoldable pub next_interval : ℕ → ℕ → ℕ → ℕ → ℕ
unfolding next_cycle
next_interval now anchor interval hour =
    let cycle = next_cycle (day_of now) (day_of anchor) interval in
    let candidate = at_hour cycle hour in
    if leb candidate now then at_hour (cycle + interval) hour else candidate

-- The time of day of an instant.
day_bounds : (t : ℕ) → (day_of t * day_ms ≤ t) × (t < day_of t * day_ms + day_ms)
day_bounds t = (omega arith, omega arith)

day_of-at_hour : (day hour : ℕ) → hour < 24 → day_of (at_hour day hour) ≡ day
day_of-at_hour day hour h = omega arith

until_weekday :
    (today day_of_week : ℕ)
    → let until = (day_of_week % 7 + 7 - weekday today) % 7 in
      (until < 7) × (weekday (today + until) ≡ day_of_week % 7)
until_weekday today day_of_week = (omega arith, omega arith)

same_weekday : (c day today : ℕ) → weekday c ≡ weekday day → c < today + 7 → today ≤ day → c ≤ day
same_weekday c day today same near late = omega arith

next_week : (c day : ℕ) → weekday c ≡ weekday day → c < day → c + 7 ≤ day
next_week c day same later = omega arith

at_hour_mono : (c day hour : ℕ) → c ≤ day → at_hour c hour ≤ at_hour day hour
at_hour_mono c day hour le = omega arith

at_hour_today : (now day hour : ℕ) → hour < 24 → now < at_hour day hour → day_of now ≤ day
at_hour_today now day hour h ahead = omega arith

-- What holds of the day that is chosen, among the days of a weekday.
abbrev First : ℕ → ℕ → ℕ → ℕ → Type 0
First now dow hour next =
    (now < next)
    × (next ≡ at_hour (day_of next) hour)
    × (weekday (day_of next) ≡ dow)
    × ((day : ℕ) → weekday day ≡ dow → now < at_hour day hour → next ≤ at_hour day hour)

chosen-First :
    (now dow hour c : ℕ)
    → hour < 24
    → day_of now ≤ c
    → c < day_of now + 7
    → weekday c ≡ dow
    → First now dow hour (if leb (at_hour c hour) now then at_hour (c + 7) hour else at_hour c hour)
chosen-First now dow hour c h low high is = elim (Bool-cases (leb (at_hour c hour) now)) [
  | inr ahead ↦
      rw (ahead, day_of-at_hour c hour h)
        (
          ground arith,
          refl,
          is,
          λ day same later. at_hour_mono c day hour (
              same_weekday c day (day_of now) (is ∙ sym same) high
                (at_hour_today now day hour h later)),
        )
  | inl past ↦
      rw (past, day_of-at_hour (c + 7) hour h)
        (
          omega (arith, day_bounds now),
          refl,
          omega (arith, is),
          λ day same later.
              let reached : at_hour c hour ≤ now = ground arith in
              let after : c < day = omega (arith, reached, later) in
              at_hour_mono (c + 7) day hour (next_week c day (is ∙ sym same) after),
        )
]

-- The next weekly run lies ahead, at the given hour of the given weekday, and no instant ahead at
-- that hour of that weekday comes before it.
pub next_weekly_first :
    (now day_of_week hour : ℕ)
    → hour < 24
    → let next = next_weekly now day_of_week hour in
      (now < next)
      × (next ≡ at_hour (day_of next) hour)
      × (weekday (day_of next) ≡ day_of_week % 7)
      × ((day : ℕ)
          → weekday day ≡ day_of_week % 7
          → now < at_hour day hour
          → next ≤ at_hour day hour)
unfolding next_weekly
next_weekly_first now day_of_week hour h =
    let (near, is) = until_weekday (day_of now) day_of_week in
    chosen-First now (day_of_week % 7) hour
      (day_of now + (day_of_week % 7 + 7 - weekday (day_of now)) % 7) h (omega arith)
      (omega (arith, near)) is

-- How many cycles a day is from the anchor, where both may come first.
abbrev pub OnCycle : ℕ → ℕ → ℕ → Type 0
OnCycle day anchor interval =
    (k : ℕ) × ((day ≡ anchor + k * interval) ⊎ (day + k * interval ≡ anchor))

abbrev NextCycle : ℕ → ℕ → ℕ → ℕ → Type 0
NextCycle today anchor interval c = (today < c) × (c ≤ today + interval) × OnCycle c anchor interval

quotient_pos : (m i q : ℕ) → i ≤ m → m < i * (q + 1) → 0 < q
quotient_pos m i zero le high = absurd (omega arith)
quotient_pos m i (suc q) le high = omega arith

begun-NextCycle :
    (today anchor i q : ℕ)
    → anchor ≤ today
    → i * q ≤ today - anchor
    → today - anchor < i * (q + 1)
    → NextCycle today anchor i (anchor + (q + 1) * i)
begun-NextCycle today anchor i q begun low high = (omega arith, omega arith, (q + 1, inl refl))

future-NextCycle :
    (today anchor i p : ℕ)
    → today < anchor
    → i * (p + 1) ≤ anchor - today + i - 1
    → anchor - today + i - 1 < i * (p + 1 + 1)
    → NextCycle today anchor i (anchor - p * i)
future-NextCycle today anchor i p ahead low high =
    (omega arith, omega arith, (p, inr (omega arith)))

next_cycle-NextCycle :
    (today anchor interval : ℕ)
    → 1 ≤ interval
    → NextCycle today anchor interval (next_cycle today anchor interval)
unfolding next_cycle
next_cycle-NextCycle today anchor interval some_days = elim (Bool-cases (leb anchor today)) [
  | inl begun ↦ rw begun (
      begun-NextCycle today anchor interval ((today - anchor) / interval) (ground arith)
        (mul-div-le (today - anchor) interval) (lt-mul-div-succ (today - anchor) some_days))
  | inr future ↦
      let m = anchor - today + interval - 1 in
      let ahead : today < anchor = ground arith in
      let low = mul-div-le m interval in
      let high = lt-mul-div-succ m some_days in
      let reaches : 0 < m / interval = quotient_pos m interval (m / interval) (omega arith) high in
      let whole : m / interval ≡ m / interval - 1 + 1 = omega arith in
      rw future (
        future-NextCycle today anchor interval (m / interval - 1) ahead
          (subst (λ q. interval * q ≤ m) whole low)
          (subst (λ q. m < interval * (q + 1)) whole high))
]

at_hour_later : (now c hour : ℕ) → day_of now < c → now < at_hour c hour
at_hour_later now c hour later = omega (arith, day_bounds now)

at_hour_ahead : (now c hour : ℕ) → day_of now < c → leb (at_hour c hour) now ≡ false
at_hour_ahead now c hour later = ground (arith, at_hour_later now c hour later)

-- The next run by an interval is at the given hour of a day of the cycle, and that day is the first
-- one of the cycle behind today: it comes within one interval, and never today, so that a run that is
-- still ahead today is passed over. An anchor that lies ahead does not hold the run back: its cycle
-- runs backwards from it too, and the run comes before the anchor where the anchor is further off than
-- one interval.
pub next_interval_cycle :
    (now anchor interval hour : ℕ)
    → hour < 24
    → 1 ≤ interval
    → let next = next_interval now anchor interval hour in
      (now < next)
      × (next ≡ at_hour (day_of next) hour)
      × (day_of now < day_of next)
      × (day_of next ≤ day_of now + interval)
      × OnCycle (day_of next) (day_of anchor) interval
unfolding next_interval
next_interval_cycle now anchor interval hour h some_days =
    let c = next_cycle (day_of now) (day_of anchor) interval in
    let (later, near, cycle) =
      next_cycle-NextCycle (day_of now) (day_of anchor) interval some_days in
    let ahead : leb (at_hour c hour) now ≡ false = at_hour_ahead now c hour later in
    rw (ahead, day_of-at_hour c hour h) (at_hour_later now c hour later, refl, later, near, cycle)
