-- ===== src/Prelude/Keys.antt =====
-- Fractional position keys as lists of code units, in the order of `<` on strings.
use Prim.Native.Nat.{ℕ}
use mathlib.Core.Path.{◌≡◌, refl}
use mathlib.Core.Logic.{◌↔◌}
use mathlib.Core.Bool.{Bool, true, false, ◌&&◌, ◌||◌}
use mathlib.Core.List.{List, [], ◌∷◌}
use native.Mathlib.Omega.{arith}
use ai_kanban.Prelude.Tests.{Eq, ltb, nat_beq}

abbrev pub Position : Type 0
Position = List ℕ

-- `a < b` on strings, code unit by code unit.
unfoldable pub lt_key : Position → Position → Bool
lt_key [] [] = false
lt_key [] (y ∷ ys) = true
lt_key (x ∷ xs) [] = false
lt_key (x ∷ xs) (y ∷ ys) = ltb x y || (nat_beq x y && lt_key xs ys)

unfoldable pub key_beq : Position → Position → Bool
key_beq [] [] = true
key_beq [] (y ∷ ys) = false
key_beq (x ∷ xs) [] = false
key_beq (x ∷ xs) (y ∷ ys) = nat_beq x y && key_beq xs ys

pub key_beq_iff : (a b : Position) → (key_beq a b ≡ true) ↔ (a ≡ b)
unfolding key_beq
key_beq_iff [] [] = ground arith
key_beq_iff [] (y ∷ ys) = ground arith
key_beq_iff (x ∷ xs) [] = ground arith
key_beq_iff (x ∷ xs) (y ∷ ys) = ground (arith, key_beq_iff xs ys)

instance abbrev pub position_eq : Eq Position
position_eq = record { equal = key_beq; equal_iff = key_beq_iff }

pub lt_key_irrefl : (a : Position) → lt_key a a ≡ false
unfolding lt_key
lt_key_irrefl [] = refl
lt_key_irrefl (x ∷ xs) = ground (arith, lt_key_irrefl xs)

pub lt_key_trans : (a b c : Position) → lt_key a b ≡ true → lt_key b c ≡ true → lt_key a c ≡ true
unfolding lt_key
lt_key_trans a b [] h k = absurd (no_below b k)
  where
    no_below : (b : Position) → lt_key b [] ≡ true → ⊥
    no_below [] h = cc
    no_below (x ∷ xs) h = cc
lt_key_trans [] b (z ∷ zs) h k = refl
lt_key_trans (x ∷ xs) [] (z ∷ zs) h k = cc
lt_key_trans (x ∷ xs) (y ∷ ys) (z ∷ zs) h k = ground (arith, lt_key_trans xs ys zs)

-- Two keys are comparable.
pub lt_key_total : (a b : Position) → lt_key a b ≡ false → lt_key b a ≡ false → a ≡ b
unfolding lt_key
lt_key_total [] [] h k = refl
lt_key_total [] (y ∷ ys) h k = cc
lt_key_total (x ∷ xs) [] h k = cc
lt_key_total (x ∷ xs) (y ∷ ys) h k = ground (arith, lt_key_total xs ys)
