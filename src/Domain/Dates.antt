-- ===== src/Domain/Dates.antt =====
-- packages/core/src/domain/dates.ts: the UTC-day rules. The loop over days stands for any way to add up;
-- the code's is that of doubles.
use Prim.Native.Nat.{min, ◌%◌}
use ai_kanban.Prelude.{
  ℕ, zero, suc, ◌+◌, ◌-◌, ◌*◌, ◌/◌, max, Bool, false, ◌||◌, Option, none, some, ltb, leb, nat_eq,
  ◌==◌, if◌then◌else◌,
}
use ai_kanban.Domain.Vocabulary.{Instant, Date}
use ai_kanban.Domain.Policy.{BusinessHours}
use ai_kanban.Domain.Doubles

abbrev pub ms_per_minute : ℕ
ms_per_minute = 60000

abbrev pub ms_per_hour : ℕ
ms_per_hour = 3600000

abbrev pub ms_per_day : ℕ
ms_per_day = 86400000

-- `utcDayOf`
abbrev pub utc_day_of : Instant → Date
utc_day_of instant = instant / ms_per_day

-- Overdue from the UTC day after the date on.
unfoldable pub is_overdue_resume : Option Date → Date → Bool
is_overdue_resume none today = false
is_overdue_resume (some expected_resume_at) today = ltb expected_resume_at today

-- `getUTCDay`: 0 is a Sunday and 6 a Saturday; the day 0 was a Thursday.
abbrev pub weekday : ℕ → ℕ
weekday day = (day + 4) % 7

unfoldable pub is_weekend : ℕ → Bool
is_weekend day = weekday day == 0 || weekday day == 6

-- The part of the day's window that lies between the instants.
unfoldable pub overlap : BusinessHours → Instant → Instant → Instant → ℕ
overlap hours start end day_start =
    let from = max start (day_start + hours.start_hour * ms_per_hour) in
    let to = min end (day_start + hours.end_hour * ms_per_hour) in
    if ltb from to then to - from else 0

-- What one round of the loop adds.
unfoldable pub day_total : BusinessHours → Instant → Instant → Instant → ℕ
unfolding overlap is_weekend
day_total hours start end day_start =
    if is_weekend (day_start / ms_per_day) then 0 else overlap hours start end day_start

-- What a day adds to the total, where it adds anything.
abbrev pub add_day : (ℕ → ℕ → ℕ) → ℕ → ℕ → ℕ
add_day plus total ms = if ms == 0 then total else plus total ms

-- The loop over UTC days, for a way to add a day's milliseconds to the total; `none` means that the
-- fuel ran out.
unfoldable pub business_loop :
    (ℕ → ℕ → ℕ) → ℕ → BusinessHours → Instant → Instant → Instant → ℕ → Option ℕ
unfolding day_total
business_loop plus zero hours start end day_start total = none
business_loop plus (suc fuel) hours start end day_start total =
    let rest =
      business_loop plus fuel hours start end (day_start + ms_per_day)
        (add_day plus total (day_total hours start end day_start)) in
    if leb day_start end then rest else some total

-- `businessMinutesBetween`, for a way to add.
unfoldable pub business_between : (ℕ → ℕ → ℕ) → Instant → Instant → BusinessHours → Option ℕ
unfolding business_loop
business_between plus start end hours =
    let days = end / ms_per_day - start / ms_per_day in
    let total = business_loop plus (days + 2) hours start end (start / ms_per_day * ms_per_day) 0 in
    if leb end start then some 0 else total

-- `total += (to - from) / MS_PER_MINUTE`, in doubles.
unfoldable pub add_minutes : ℕ → ℕ → ℕ
add_minutes total ms = Doubles.add total (Doubles.quotient ms ms_per_minute)

-- `businessMinutesBetween`
unfoldable pub business_minutes_between : Instant → Instant → BusinessHours → Option ℕ
unfolding add_minutes business_between
business_minutes_between start end hours = business_between add_minutes start end hours

-- The same sum without rounding, in milliseconds.
unfoldable pub business_ms_between : Instant → Instant → BusinessHours → Option ℕ
unfolding business_between
business_ms_between start end hours = business_between (λ total ms. total + ms) start end hours

-- The comparison of doubles.
abbrev pub reaches : ℕ → Option ℕ → Bool
reaches estimate_minutes none = false
reaches estimate_minutes (some total) = leb (estimate_minutes * Doubles.one) total

unfoldable pub is_work_overdue : Option Instant → Option ℕ → Instant → BusinessHours → Bool
unfolding business_minutes_between
is_work_overdue none estimate now hours = false
is_work_overdue (some started) none now hours = false
is_work_overdue (some started) (some estimate) now hours =
    reaches estimate (business_minutes_between started now hours)
