-- ===== src/Examples/Clock.antt =====
-- packages/core/src/domain/dates.ts over a weekend: from Friday 1970-01-02 16:00 to Monday 10:30.
use ai_kanban.Prelude.{ℕ, ◌+◌, ◌-◌, ◌*◌, ◌≤◌, ◌≡◌, refl, arith, true, false, ◌<◌, some, Option}
use ai_kanban.Domain.Vocabulary.{Instant}
use ai_kanban.Domain.Policy.{default_business_hours, valid_business_hours}
use ai_kanban.Domain.Doubles.{one, spacing, nearest, round, add, quotient}
use ai_kanban.Domain.Dates.{
  ms_per_minute, business_ms_between, business_minutes_between, business_between, business_loop,
  day_total, overlap, is_weekend, add_minutes, is_work_overdue,
}
use ai_kanban.WorkTime.{working_ms, business_ms_between-working_ms}
use ai_kanban.Overdue.{ten_years, business_minutes_between-near, is_work_overdue-near}

abbrev friday : Instant
friday = 144000000

abbrev saturday : Instant
saturday = 200000000

abbrev monday : Instant
monday = 383400000

valid_hours : valid_business_hours default_business_hours ≡ true
unfolding valid_business_hours
valid_hours = refl

-- One hour on Friday and one and a half on Monday.
weekend_time : business_ms_between friday monday default_business_hours ≡ some (150 * ms_per_minute)
unfolding business_ms_between business_between business_loop day_total overlap is_weekend
weekend_time = refl

business_ms_between-working_ms_example :
    business_ms_between friday monday default_business_hours
    ≡ some (working_ms default_business_hours friday (monday - friday))
business_ms_between-working_ms_example =
    business_ms_between-working_ms friday monday default_business_hours valid_hours

-- Working hours that end at exactly 802 minutes, which the doubles miss by their rounding.
abbrev begun : Instant
begun = 1783344850400

abbrev checked : Instant
checked = 1783508170400

rounds_down :
    (is_work_overdue (some begun) (some 802) checked default_business_hours ≡ false)
    × (business_ms_between begun checked default_business_hours ≡ some (802 * ms_per_minute))
unfolding is_work_overdue business_minutes_between business_ms_between business_between
    business_loop day_total overlap is_weekend add_minutes add quotient round spacing nearest
rounds_down = (refl, refl)

business_minutes_between-near_example :
    (total : ℕ) × (business_minutes_between begun checked default_business_hours ≡ some total)
    × (total * ms_per_minute
        < (working_ms default_business_hours begun (checked - begun) + 1) * one)
    × (working_ms default_business_hours begun (checked - begun) * one
        < total * ms_per_minute + one)
business_minutes_between-near_example =
    business_minutes_between-near begun checked default_business_hours valid_hours (omega arith)

in_time :
    (started : Instant)
    → ◌≡◌ {A = Option ℕ} (some friday) (some started)
    → monday ≤ started + ten_years
in_time started e = ground arith

is_work_overdue-near_example :
    (is_work_overdue (some friday) (some 120) monday default_business_hours ≡ true
      → (started : Instant) × (estimate : ℕ) × (◌≡◌ {A = Option ℕ} (some friday) (some started))
        × (◌≡◌ {A = Option ℕ} (some 120) (some estimate))
        × (estimate * ms_per_minute ≤ working_ms default_business_hours started (monday - started)))
    × ((started : Instant) (estimate : ℕ)
        → ◌≡◌ {A = Option ℕ} (some friday) (some started)
        → ◌≡◌ {A = Option ℕ} (some 120) (some estimate)
        → estimate * ms_per_minute < working_ms default_business_hours started (monday - started)
        → is_work_overdue (some friday) (some 120) monday default_business_hours ≡ true)
is_work_overdue-near_example =
    is_work_overdue-near (some friday) (some 120) monday default_business_hours valid_hours in_time
