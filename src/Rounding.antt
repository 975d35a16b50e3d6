-- ===== src/Rounding.antt =====
-- packages/core/src/domain/dates.ts: how far the doubles are from the numbers that they round.
use Prim.Native.Nat.{◌%◌, ◌^◌}
use native.Mathlib.Nat.{pow-suc, div-lt_iff_lt-mul}
use ai_kanban.Prelude.{
  ℕ, zero, suc, ◌+◌, ◌*◌, ◌/◌, ◌≤◌, ◌<◌, ◌≡◌, ◌||◌, ◌&&◌, ltb, nat_eq, ◌==◌, arith, refl, subst,
  Bool-cases, inl, inr,
}
use ai_kanban.Domain.Doubles.{significands, spacing, nearest, round}

nearest-near :
    (n m : ℕ) → 0 < m → (2 * (nearest n m * m) ≤ 2 * n + m) × (2 * n ≤ 2 * (nearest n m * m) + m)
unfolding nearest
nearest-near n m h =
    let r : n / m * m + n % m ≡ n = omega arith in
    let lt : n % m < m = omega arith in
    elim (Bool-cases (ltb (2 * (n % m)) m || (2 * (n % m) == m && n / m % 2 == 0))) [
      | inl t ↦ rw t (let s : 2 * (n % m) ≤ m = ground arith in (omega arith, omega arith))
      | inr f ↦ rw f (let s : m ≤ 2 * (n % m) = ground arith in (omega arith, omega arith))
    ]

nearest-le : (n m k : ℕ) → 0 < m → n < k * m → nearest n m ≤ k
unfolding nearest
nearest-le n m k h b = let q : n / m < k = (div-lt_iff_lt-mul h).1 b in ground arith

spacing-le :
    (fuel n d u : ℕ)
    → 4503599627370496 * (u * d) ≤ n
    → 4503599627370496 * (spacing fuel n d u * d) ≤ n
unfolding spacing
spacing-le zero n d u h = h
spacing-le (suc fuel) n d u h = elim (Bool-cases (ltb n (significands * (u * d)))) [
  | inl t ↦ rw t h
  | inr f ↦ rw f (
      spacing-le fuel n d (2 * u)
        (let s : significands * (u * d) ≤ n = ground arith in omega arith))
]

-- With enough doublings left, the spacing leaves no more than 53 significant bits.
spacing-fits :
    (fuel n d u : ℕ)
    → n < significands * (2 ^ fuel * (u * d))
    → n < significands * (spacing fuel n d u * d)
unfolding spacing
spacing-fits zero n d u h = omega (arith, h)
spacing-fits (suc fuel) n d u h = elim (Bool-cases (ltb n (significands * (u * d)))) [
  | inl t ↦ rw t (ground arith)
  | inr f ↦
      let p : n < significands * (2 ^ fuel * 2 * (u * d)) =
        subst (λ x. n < significands * (x * (u * d))) (pow-suc 2 fuel) h in
      rw f (spacing-fits fuel n d (2 * u) (omega (arith, p)))
]

spacing-pos : (fuel n d u : ℕ) → 0 < u → 0 < spacing fuel n d u
unfolding spacing
spacing-pos zero n d u h = h
spacing-pos (suc fuel) n d u h = elim (Bool-cases (ltb n (significands * (u * d)))) [
  | inl t ↦ rw t h
  | inr f ↦ rw f (spacing-pos fuel n d (2 * u) (omega arith))
]

product-pos : (a b : ℕ) → 0 < a → 0 < b → 0 < a * b
product-pos zero b h k = absurd (omega arith)
product-pos (suc a) zero h k = absurd (omega arith)
product-pos (suc a) (suc b) h k = omega arith

-- A rounded number of at least 2 ^ 52 units is off by at most its share of 2 ^ -53.
pub round-near :
    (n d : ℕ)
    → 0 < d
    → 4503599627370496 * d ≤ n
    → (significands * (round n d * d) ≤ significands * n + n)
      × (significands * n ≤ significands * (round n d * d) + n)
unfolding round
round-near n d h k =
    let u = spacing 64 n d 1 in
    let fit = spacing-le 64 n d 1 (omega (arith, k)) in
    let pos = product-pos u d (spacing-pos 64 n d 1 (omega arith)) h in
    let (above, below) = nearest-near n (u * d) pos in (omega arith, omega arith)

-- A rounded number below 2 ^ 117 units has at most 53 significant bits, or is the next power of two.
pub round-fits :
    (n d : ℕ)
    → 0 < d
    → n < significands * (2 ^ 64 * d)
    → (k u : ℕ) × (round n d ≡ k * u) × (k ≤ significands)
unfolding round
round-fits n d h b =
    let u = spacing 64 n d 1 in
    let fit = spacing-fits 64 n d 1 (omega (arith, b)) in
    let pos = product-pos u d (spacing-pos 64 n d 1 (omega arith)) h in
    (nearest n (u * d), u, refl, nearest-le n (u * d) significands pos fit)
