-- ===== src/Domain/Doubles.antt =====
-- packages/core/src/domain/dates.ts: the arithmetic of JavaScript on its total of minutes. A double
-- that is not negative stands as the count of its units of 2 ^ -68, of which all doubles from 2 ^ -16 on
-- are multiples, and so every quotient of a count of milliseconds by 60,000 and every sum of these.
use Prim.Native.Nat.{◌%◌}
use ai_kanban.Prelude.{ℕ, zero, suc, ◌+◌, ◌*◌, ◌/◌, ◌||◌, ◌&&◌, ltb, nat_eq, ◌==◌, if◌then◌else◌}

-- 2 ^ 68: the units of the number one.
abbrev pub one : ℕ
one = 295147905179352825856

-- 2 ^ 53: a double has 53 significant bits.
abbrev pub significands : ℕ
significands = 9007199254740992

-- The spacing of the doubles around `n / d`, from `u` on, by doubling.
unfoldable pub spacing : ℕ → ℕ → ℕ → ℕ → ℕ
spacing zero n d u = u
spacing (suc fuel) n d u =
    let rest = spacing fuel n d (2 * u) in if ltb n (significands * (u * d)) then u else rest

-- The whole number nearest to `n / m`, and the even one of two.
unfoldable pub nearest : ℕ → ℕ → ℕ
nearest n m =
    if ltb (2 * (n % m)) m || (2 * (n % m) == m && n / m % 2 == 0) then n / m else n / m + 1

-- The double nearest to `n / d`. The spacing grows to 2 ^ 64 units.
unfoldable pub round : ℕ → ℕ → ℕ
round n d = let u = spacing 64 n d 1 in nearest n (u * d) * u

-- `a + b`
unfoldable pub add : ℕ → ℕ → ℕ
add a b = round (a + b) 1

-- `n / d` of whole numbers.
unfoldable pub quotient : ℕ → ℕ → ℕ
quotient n d = round (n * one) d
