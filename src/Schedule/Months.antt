-- ===== src/Schedule/Months.antt =====
-- `nextMonthly` of backend/src/schedule-calculator.js. A date is the number of its month (twelve times
-- the year, and the month from 0 on), the day of the month from 1 on, and the milliseconds of the day.
-- The day is set to at most 28, so no setter runs over into the next month; an hour is below 24, so
-- none runs over into the next day.
use stellar_royalty_splitter.Prelude.{
  ℕ, ◌+◌, ◌*◌, ◌≡◌, refl, Bool, true, false, ◌&&◌, ◌||◌, min, max, ltb, leb, ◌==◌, nat_eq,
  if◌then◌else◌, Bool-cases, inl, inr, arith,
}

pub record Date : Type 0 where
  pub month : ℕ
  pub day : ℕ
  pub ms : ℕ

-- The comparison `<=` of dates.
abbrev pub at_most : Date → Date → Bool
at_most a b =
    ltb a.month b.month
    || (a.month == b.month && (ltb a.day b.day || (a.day == b.day && leb a.ms b.ms)))

abbrev pub clamped : ℕ → ℕ
clamped day_of_month = min (max day_of_month 1) 28

-- `nextMonthly`
unfoldable pub next_monthly : Date → ℕ → ℕ → Date
next_monthly now day_of_month hour =
    let candidate : Date = record {
      month = now.month;
      day = clamped day_of_month;
      ms = hour * 3600000;
    } in
    if at_most candidate now then record candidate { month = candidate.month + 1 } else candidate

-- The next monthly run lies ahead, on the given day of the month (moved into 1 to 28) at the given
-- hour, and no date ahead on that day and at that hour comes before it.
pub next_monthly_first :
    (now : Date) (day_of_month hour : ℕ)
    → let next = next_monthly now day_of_month hour in
      (at_most next now ≡ false)
      × (next.day ≡ clamped day_of_month)
      × (next.ms ≡ hour * 3600000)
      × ((other : Date)
          → other.day ≡ clamped day_of_month
          → other.ms ≡ hour * 3600000
          → at_most other now ≡ false
          → at_most next other ≡ true)
unfolding next_monthly
next_monthly_first now day_of_month hour =
    elim (Bool-cases (
      at_most (record { month = now.month; day = clamped day_of_month; ms = hour * 3600000 })
        now)) [
          | inl past ↦ rw past (ground arith, refl, refl, λ other d m ahead. ground arith)
          | inr ahead ↦ rw ahead (ground arith, refl, refl, λ other d m later. ground arith)
        ]
