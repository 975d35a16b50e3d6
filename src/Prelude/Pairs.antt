-- ===== src/Prelude/Pairs.antt =====
-- Lists any two items of which, the earlier first, stand in a relation.
use mathlib.Core.Path.{◌≡◌, sym}
use mathlib.Core.Logic.{inl, inr}
use mathlib.Core.Bool.{Bool, true, false}
use mathlib.Core.List.{List, [], ◌∷◌, ◌++◌}
use native.Mathlib.Omega.{arith}
use ai_kanban.Prelude.Tests.{Eq, ◌==◌, Bool-cases}
use ai_kanban.Prelude.Lists.{
  filter, any, replace_first, All, All-append, All-filter, All-replace_first,
}

pub any-none :
    {A : Type 0} (p : A → Bool) (xs : List A) → any p xs ≡ false → All (λ x. p x ≡ false) xs
any-none p [] h = tt
any-none p (x ∷ xs) h = (ground arith, any-none p xs (ground arith))

pub beq_sym : {A : Type 0} ⦃e : Eq A⦄ (a b : A) → (a == b) ≡ false → (b == a) ≡ false
beq_sym ⦃e⦄ a b h = elim (Bool-cases (b == a)) [
  | inl t ↦ absurd (cc (h, (e.equal_iff a b).1 (sym ((e.equal_iff b a).0 t))))
  | inr f ↦ f
]

module _ {A : Type 0} (R : A → A → Type 0) where
  abbrev pub Pairwise : List A → Type 0
  Pairwise [] = Unit
  Pairwise (x ∷ xs) = All (R x) xs × Pairwise xs

  pub Pairwise-append_one :
      (xs : List A) (y : A) → Pairwise xs → All (λ x. R x y) xs → Pairwise (xs ++ y ∷ [])
  Pairwise-append_one [] y h k = (tt, tt)
  Pairwise-append_one (x ∷ xs) y (a, h) (r, k) =
      (All-append (R x) xs (y ∷ []) a (r, tt), Pairwise-append_one xs y h k)

  pub Pairwise-filter : (p : A → Bool) (xs : List A) → Pairwise xs → Pairwise (filter p xs)
  Pairwise-filter p [] h = tt
  Pairwise-filter p (x ∷ xs) (a, h) = elim (Bool-cases (p x)) [
    | inl t ↦ rw t (All-filter (R x) p xs a, Pairwise-filter p xs h)
    | inr f ↦ rw f (Pairwise-filter p xs h)
  ]

  -- The new item stands in the relation to all that do not pass, and no two items pass.
  pub Pairwise-replace_first :
      (p : A → Bool) (v : A) (xs : List A)
      → ((x y : A) → R x y → p x ≡ true → p y ≡ false)
      → Pairwise xs
      → All (λ x. p x ≡ false → R x v × R v x) xs
      → Pairwise (replace_first p v xs)
  Pairwise-replace_first p v [] sep h k = tt
  Pairwise-replace_first p v (x ∷ xs) sep (a, h) (r, k) = elim (Bool-cases (p x)) [
    | inl t ↦ rw t (after x t xs a k, h)
    | inr f ↦ rw f (All-replace_first (R x) p v xs a (r f).0, Pairwise-replace_first p v xs sep h k)
  ]
    where
      after :
          (x : A)
          → p x ≡ true
          → (ys : List A) → All (R x) ys
          → All (λ x. p x ≡ false → R x v × R v x) ys
          → All (R v) ys
      after x t [] a k = tt
      after x t (y ∷ ys) (a, b) (r, k) = ((r (sep x y a t)).1, after x t ys b k)
