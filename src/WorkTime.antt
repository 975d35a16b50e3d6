-- ===== src/WorkTime.antt =====
-- packages/core/src/domain/dates.ts: business time against a definition instant by instant.
use Prim.Native.Nat.{min, ◌%◌}
use ai_kanban.Prelude.{
  ℕ, zero, suc, ◌+◌, ◌-◌, ◌*◌, ◌/◌, ◌≤◌, ◌<◌, max, Bool, true, false, not, ◌&&◌, some, ltb, leb,
  nat_eq, if◌then◌else◌, ◌≡◌, refl, sym, ap, ◌∙◌, arith,
}
use native.Mathlib.Decide.{dec_lt}
use ai_kanban.Domain.Vocabulary.{Instant}
use ai_kanban.Domain.Policy.{BusinessHours, valid_business_hours}
use ai_kanban.Domain.Dates.{
  ms_per_hour, ms_per_day, is_weekend, overlap, day_total, business_loop, business_ms_between,
  business_between, add_day,
}

-- The millisecond lies in the working hours of a working day.
unfoldable pub is_working : BusinessHours → Instant → Bool
is_working hours t =
    not (is_weekend (t / ms_per_day))
    && leb (hours.start_hour * ms_per_hour) (t % ms_per_day)
    && ltb (t % ms_per_day) (hours.end_hour * ms_per_hour)

-- How many of the `n` milliseconds from `start` on are working ones.
unfoldable pub working_ms : BusinessHours → Instant → ℕ → ℕ
unfolding is_working
working_ms hours start zero = 0
working_ms hours start (suc n) =
    working_ms hours start n + (if is_working hours (start + n) then 1 else 0)

working_ms-add :
    (hours : BusinessHours) (start : Instant) (n m : ℕ)
    → working_ms hours start (n + m) ≡ working_ms hours start n + working_ms hours (start + n) m
unfolding working_ms
working_ms-add hours start n zero = let e : n + 0 ≡ n = omega arith in rw e (omega arith)
working_ms-add hours start n (suc m) =
    let same : start + (n + m) ≡ start + n + m = omega arith in
    let here : is_working hours (start + (n + m)) ≡ is_working hours (start + n + m) =
      ap (is_working hours) same in
    let e : n + suc m ≡ suc (n + m) = omega arith in
    rw e (ground (arith, working_ms-add hours start n m))

day_of :
    (d t : ℕ)
    → d * ms_per_day ≤ t
    → t < d * ms_per_day + ms_per_day
    → (t / ms_per_day ≡ d) × (t % ms_per_day + d * ms_per_day ≡ t)
day_of d t lo hi = (omega arith, omega arith)

-- The working milliseconds from the first instant to the second, both in the day `d`.
abbrev window : BusinessHours → ℕ → Instant → Instant → ℕ
window hours d a b =
    min b (d * ms_per_day + hours.end_hour * ms_per_hour)
    - max a (d * ms_per_day + hours.start_hour * ms_per_hour)

is_working-day :
    (hours : BusinessHours) (d t : ℕ)
    → d * ms_per_day ≤ t
    → t < d * ms_per_day + ms_per_day
    → is_working hours t ≡ (
        not (is_weekend d)
        && leb (d * ms_per_day + hours.start_hour * ms_per_hour) t
        && ltb t (d * ms_per_day + hours.end_hour * ms_per_hour))
unfolding is_working
is_working-day hours d t lo hi =
    let (day, rest) = day_of d t lo hi in
    let w : is_weekend (t / ms_per_day) ≡ is_weekend d = ap is_weekend day in
    ground (arith, w, rest)

-- Within a day, the working milliseconds are those of its window.
working_ms-day :
    (hours : BusinessHours) (d a n : ℕ)
    → d * ms_per_day ≤ a
    → a + n ≤ d * ms_per_day + ms_per_day
    → working_ms hours a n ≡ (if is_weekend d then 0 else window hours d a (a + n))
unfolding working_ms
working_ms-day hours d a zero lo hi = ground arith
working_ms-day hours d a (suc n) lo hi =
    let ih = working_ms-day hours d a n lo (omega arith) in
    let here = is_working-day hours d (a + n) (omega arith) (omega arith) in
    ground (arith, ih, here)

-- One round of the loop counts the working milliseconds of the rest of its day.
day_total-working_ms :
    (hours : BusinessHours) (start end d c n : ℕ)
    → hours.end_hour ≤ 24
    → c ≡ max start (d * ms_per_day)
    → c + n ≡ min end (d * ms_per_day + ms_per_day)
    → day_total hours start end (d * ms_per_day) ≡ working_ms hours c n
unfolding day_total overlap
day_total-working_ms hours start end d c n h lo hi =
    let day = working_ms-day hours d c n (omega arith) (omega arith) in
    let at : d * ms_per_day / ms_per_day ≡ d = omega arith in
    let w : is_weekend (d * ms_per_day / ms_per_day) ≡ is_weekend d = ap is_weekend at in
    ground (arith, day, w)

abbrev exact : ℕ → ℕ → ℕ
exact total ms = total + ms

pub business_loop-step :
    (plus : ℕ → ℕ → ℕ) (fuel : ℕ) (hours : BusinessHours) (start end day_start total : ℕ)
    → day_start ≤ end
    → business_loop plus (suc fuel) hours start end day_start total
      ≡ business_loop plus fuel hours start end
          (day_start + ms_per_day)
          (add_day plus total (day_total hours start end day_start))
unfolding business_loop
business_loop-step plus fuel hours start end day_start total h =
    let t : leb day_start end ≡ true = ground arith in rw t refl

pub business_loop-stop :
    (plus : ℕ → ℕ → ℕ) (fuel : ℕ) (hours : BusinessHours) (start end day_start total : ℕ)
    → end < day_start
    → business_loop plus (suc fuel) hours start end day_start total ≡ some total
unfolding business_loop
business_loop-stop plus fuel hours start end day_start total h =
    let t : leb day_start end ≡ false = ground arith in rw t refl

business_loop-done :
    (fuel : ℕ) (hours : BusinessHours) (start end : Instant) (d c n total : ℕ)
    → end < d * ms_per_day
    → c ≡ min end (max start (d * ms_per_day))
    → c + n ≡ end
    → business_loop exact (suc fuel) hours start end (d * ms_per_day) total
      ≡ some (total + working_ms hours c n)
unfolding working_ms
business_loop-done fuel hours start end d c n total after lo hi =
    let left : n ≡ 0 = omega arith in
    business_loop-stop exact fuel hours start end (d * ms_per_day) total after
    ∙ ap some (rw left (omega arith))

add_day-exact : (total ms : ℕ) → add_day exact total ms ≡ total + ms
add_day-exact total ms = ground arith

-- With fuel for the days that are left the loop ends, and has added the working milliseconds that
-- were left.
business_loop-working_ms :
    (hours : BusinessHours) (start end : Instant) (fuel d c n total : ℕ)
    → hours.end_hour ≤ 24
    → start < end
    → start < d * ms_per_day + ms_per_day
    → end < (d + fuel) * ms_per_day
    → c ≡ min end (max start (d * ms_per_day))
    → c + n ≡ end
    → business_loop exact (suc fuel) hours start end (d * ms_per_day) total
      ≡ some (total + working_ms hours c n)
business_loop-working_ms hours start end zero d c n total h order day bound lo hi =
    business_loop-done zero hours start end d c n total (omega arith) lo hi
business_loop-working_ms hours start end (suc fuel) d c n total h order day bound lo hi =
    elim (dec_lt end (d * ms_per_day)) [
      | yes after ↦ business_loop-done (suc fuel) hours start end d c n total after lo hi
      | no before ↦
          let next = min end (max start (suc d * ms_per_day)) in
          let k = next - c in
          let rest = end - next in
          let added : day_total hours start end (d * ms_per_day) ≡ working_ms hours c k =
            day_total-working_ms hours start end d c k h (omega arith) (omega arith) in
          let ih =
            business_loop-working_ms hours start end fuel (suc d) next rest
              (total + day_total hours start end (d * ms_per_day)) h order (omega arith)
              (omega arith) refl (omega arith) in
          let split : n ≡ k + rest = omega arith in
          let there : c + k ≡ next = omega arith in
          let parts : working_ms hours c n ≡ working_ms hours c k + working_ms hours next rest =
            ap (working_ms hours c) split
            ∙ working_ms-add hours c k rest
            ∙ ap (λ x. working_ms hours c k + working_ms hours x rest) there in
          let days : suc d * ms_per_day ≡ d * ms_per_day + ms_per_day = omega arith in
          business_loop-step exact (suc fuel) hours start end (d * ms_per_day) total (omega arith)
          ∙ ap (λ x. business_loop exact (suc fuel) hours start end (d * ms_per_day + ms_per_day) x)
              (add_day-exact total (day_total hours start end (d * ms_per_day)))
          ∙ ap
              (λ x.
                business_loop exact (suc fuel) hours start end x
                  (total + day_total hours start end (d * ms_per_day)))
              (sym days)
          ∙ ih
          ∙ ap some (omega (arith, parts, added))
    ]

-- The loop over the days between two instants ends within its fuel, in working hours of one day, and
-- finds, where it adds without rounding, the count of the working milliseconds between them.
pub business_ms_between-working_ms :
    (start end : Instant) (hours : BusinessHours)
    → valid_business_hours hours ≡ true
    → business_ms_between start end hours ≡ some (working_ms hours start (end - start))
unfolding business_ms_between business_between valid_business_hours working_ms
business_ms_between-working_ms start end hours h = elim (dec_lt start end) [
  | no early ↦ let none_left : end - start ≡ 0 = omega arith in rw none_left (ground arith)
  | yes order ↦
      let d = start / ms_per_day in
      let days = end / ms_per_day - d in
      let late : leb end start ≡ false = ground arith in
      let loop =
        business_loop-working_ms hours start end (days + 1) d start (end - start) 0 (ground arith)
          order (omega arith) (omega arith) (omega arith) (omega arith) in
      let fuel : days + 2 ≡ suc (days + 1) = omega arith in
      rw late (rw fuel (loop ∙ ap some (omega arith)))
]
