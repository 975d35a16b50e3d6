-- ===== src/Overdue.antt =====
-- packages/core/src/domain/dates.ts: the total of minutes in doubles against the exact one, and the
-- verdict that stands on it.
use native.Mathlib.Decide.{dec_lt, dec_le}
use ai_kanban.Prelude.{
  ℕ, zero, suc, ◌+◌, ◌-◌, ◌*◌, ◌/◌, ◌≤◌, ◌<◌, true, false, Option, none, some, some-cancel, leb,
  nat_eq, ◌==◌, ◌≡◌, inl, inr, refl, sym, ap, ◌∙◌, arith, Bool-cases,
}
use ai_kanban.Domain.Vocabulary.{Instant}
use ai_kanban.Domain.Policy.{BusinessHours, valid_business_hours}
use ai_kanban.Domain.Doubles.{one, significands, add, quotient}
use ai_kanban.Domain.Dates.{
  ms_per_minute, ms_per_day, overlap, day_total, business_loop, business_between, add_day,
  add_minutes, business_minutes_between, business_ms_between, is_work_overdue, reaches,
}
use ai_kanban.Rounding.{round-near}
use ai_kanban.WorkTime.{
  working_ms, business_ms_between-working_ms, business_loop-step, business_loop-stop,
}

-- 2 ^ 55: more than one day can add to the error, in units of a 60,000th.
abbrev slack : ℕ
slack = 36028797018963968

-- The total in doubles is within the slack of so many days of the total in milliseconds.
abbrev Near : ℕ → ℕ → ℕ → Type 0
Near days total ms =
    (total * ms_per_minute ≤ ms * one + days * slack)
    × (ms * one ≤ total * ms_per_minute + days * slack)

quotient-near :
    (ms : ℕ)
    → 0 < ms
    → (significands * (quotient ms ms_per_minute * ms_per_minute)
        ≤ significands * (ms * one) + ms * one)
      × (significands * (ms * one)
          ≤ significands * (quotient ms ms_per_minute * ms_per_minute) + ms * one)
unfolding quotient
quotient-near ms h = round-near (ms * one) ms_per_minute (omega arith) (omega arith)

add-near :
    (a b : ℕ)
    → 4503599627370496 ≤ b
    → (significands * add a b ≤ significands * (a + b) + (a + b))
      × (significands * (a + b) ≤ significands * add a b + (a + b))
unfolding add
add-near a b h =
    let (above, below) = round-near (a + b) 1 (omega arith) (omega arith) in
    (omega (arith, above), omega (arith, below))

add_minutes-Near :
    (days total ms more : ℕ)
    → Near days total ms
    → 0 < more
    → more ≤ ms_per_day
    → ms + more ≤ 549755813888
    → days ≤ 8191
    → Near (suc days) (add_minutes total more) (ms + more)
unfolding add_minutes
add_minutes-Near days total ms more (lo, hi) p d b k =
    let q = quotient more ms_per_minute in
    let (q_above, q_below) = quotient-near more p in
    let (above, below) = add-near total q (omega (arith, q_below)) in
    (omega (arith, lo, q_above, above), omega (arith, hi, q_above, q_below, below, lo))

add_day-Near :
    (days total ms more : ℕ)
    → Near days total ms
    → more ≤ ms_per_day
    → ms + more ≤ 549755813888
    → days ≤ 8191
    → Near (suc days) (add_day add_minutes total more) (ms + more)
add_day-Near days total ms more (lo, hi) d b k = elim (Bool-cases (more == 0)) [
  | inl t ↦ let e : more ≡ 0 = (nat_eq.equal_iff more 0).0 t in rw (t, e) (omega arith, omega arith)
  | inr f ↦
      let p : 0 < more = ground (arith, nat_eq.equal_iff more 0) in
      rw f (add_minutes-Near days total ms more (lo, hi) p d b k)
]

day_total-le :
    (hours : BusinessHours) (start end day_start : ℕ)
    → hours.end_hour ≤ 24
    → day_total hours start end day_start ≤ ms_per_day
unfolding day_total overlap
day_total-le hours start end day_start h = ground arith

-- Where the exact loop ends, that in doubles ends within the slack of its days.
business_loop-Near :
    (fuel : ℕ) (hours : BusinessHours) (start end day_start days total ms result : ℕ)
    → hours.end_hour ≤ 24
    → Near days total ms
    → ms + fuel * ms_per_day ≤ 549755813888
    → days + fuel ≤ 8191
    → business_loop (λ t m. t + m) fuel hours start end day_start ms ≡ some result
    → (found : ℕ) × (business_loop add_minutes fuel hours start end day_start total ≡ some found)
      × Near (days + fuel) found result
unfolding business_loop
business_loop-Near zero hours start end day_start days total ms result h near b k e =
    absurd (ground arith)
business_loop-Near (suc fuel) hours start end day_start days total ms result h (lo, hi) b k e =
    let more = day_total hours start end day_start in
    let room = day_total-le hours start end day_start h in
    let next = add_day-Near days total ms more (lo, hi) room (omega (arith, room)) (omega arith) in
    let plain : add_day (λ t m. t + m) ms more ≡ ms + more = ground arith in
    elim (dec_le day_start end) [
      | yes t ↦
          let rest : business_loop (λ t m. t + m) fuel hours start end (day_start + ms_per_day)
                (ms + more)
              ≡ some result =
            ap (λ x. business_loop (λ t m. t + m) fuel hours start end (day_start + ms_per_day) x)
              (sym plain)
            ∙ sym (business_loop-step (λ t m. t + m) fuel hours start end day_start ms t)
            ∙ e in
          let (found, q, (above, below)) =
            business_loop-Near fuel hours start end (day_start + ms_per_day) (suc days)
              (add_day add_minutes total more) (ms + more) result h next (omega (arith, room))
              (omega arith) rest in
          (
            found,
            business_loop-step add_minutes fuel hours start end day_start total t ∙ q,
            (omega (arith, above), omega (arith, below)),
          )
      | no f ↦
          let same : ms ≡ result = some-cancel (
            sym (business_loop-stop (λ t m. t + m) fuel hours start end day_start ms (omega arith))
            ∙ e) in
          (
            total,
            business_loop-stop add_minutes fuel hours start end day_start total (omega arith),
            (omega (arith, lo), omega (arith, hi)),
          )
    ]

-- Ten years, in milliseconds.
abbrev pub ten_years : ℕ
ten_years = 315360000000

-- Over at most ten years, with working hours of one day, the loop in doubles ends within its fuel, and
-- the minutes that it finds are less than one millisecond away from the working time between the
-- instants.
pub business_minutes_between-near :
    (start end : Instant) (hours : BusinessHours)
    → valid_business_hours hours ≡ true
    → end ≤ start + ten_years
    → (total : ℕ) × (business_minutes_between start end hours ≡ some total)
      × (total * ms_per_minute < (working_ms hours start (end - start) + 1) * one)
      × (working_ms hours start (end - start) * one < total * ms_per_minute + one)
unfolding business_minutes_between business_ms_between business_between valid_business_hours
    working_ms
business_minutes_between-near start end hours h years =
    let exactly = business_ms_between-working_ms start end hours h in
    let w = working_ms hours start (end - start) in
    let days = end / ms_per_day - start / ms_per_day in
    elim (dec_lt start end) [
      | no early ↦
          let late : leb end start ≡ true = ground arith in
          let z : end - start ≡ 0 = omega arith in
          let nothing : w ≡ 0 = ap (working_ms hours start) z in
          (0, rw late refl, omega (arith, nothing), omega (arith, nothing))
      | yes order ↦
          let late : leb end start ≡ false = ground arith in
          let loop : business_loop (λ t m. t + m) (days + 2) hours start end
                (start / ms_per_day * ms_per_day) 0
              ≡ some w =
            ground arith in
          let (found, q, (above, below)) =
            business_loop-Near (days + 2) hours start end (start / ms_per_day * ms_per_day) 0 0 0 w
              (ground arith) (omega arith, omega arith) (omega arith) (omega arith) loop in
          (found, rw late q, omega (arith, above), omega (arith, below))
    ]

leb-le : (a b : ℕ) → leb a b ≡ true → a ≤ b
leb-le a b h = ground arith

le-leb : (a b : ℕ) → a ≤ b → leb a b ≡ true
le-leb a b h = ground arith

-- Over at most ten years, with working hours of one day, a card that is overdue was started and
-- estimated and has been worked on for at least its estimate, and a card that has been worked on for
-- more than its estimate is overdue; only at exactly the estimate can the rounding decide.
pub is_work_overdue-near :
    (work_started_at : Option Instant) (estimate_minutes : Option ℕ) (now : Instant)
    (hours : BusinessHours)
    → valid_business_hours hours ≡ true
    → ((started : Instant) → work_started_at ≡ some started → now ≤ started + ten_years)
    → (is_work_overdue work_started_at estimate_minutes now hours ≡ true
        → (started : Instant) × (estimate : ℕ) × (work_started_at ≡ some started)
          × (estimate_minutes ≡ some estimate)
          × (estimate * ms_per_minute ≤ working_ms hours started (now - started)))
      × ((started : Instant) (estimate : ℕ)
          → work_started_at ≡ some started
          → estimate_minutes ≡ some estimate
          → estimate * ms_per_minute < working_ms hours started (now - started)
          → is_work_overdue work_started_at estimate_minutes now hours ≡ true)
unfolding is_work_overdue
is_work_overdue-near none estimate now hours h years =
    (λ t. absurd (ground arith), λ s e p q r. absurd (ground arith))
is_work_overdue-near (some started) none now hours h years =
    (λ t. absurd (ground arith), λ s e p q r. absurd (ground arith))
is_work_overdue-near (some started) (some estimate) now hours h years =
    let (total, found, above, below) =
      business_minutes_between-near started now hours h (years started refl) in
    let verdict : is_work_overdue (some started) (some estimate) now hours
        ≡ leb (estimate * one) total =
      ap (reaches estimate) found in
    (
      λ t.
          let enough = leb-le (estimate * one) total (sym verdict ∙ t) in
          (started, estimate, refl, refl, omega (arith, above, enough)),
      λ s e p q r.
          let same : started ≡ s = some-cancel p in
          let size : estimate ≡ e = some-cancel q in
          let r' : estimate * ms_per_minute < working_ms hours started (now - started) =
            rw (same, size) r in
          verdict ∙ le-leb (estimate * one) total (omega (arith, below, r')),
    )
