-- ===== src/Prelude/Lists.antt =====
-- The array methods that the program uses, over lists with Boolean tests and native lengths.
use Prim.Native.Nat.{ℕ, zero, suc, ◌+◌, ◌≤◌}
use mathlib.Core.Path.{◌≡◌, refl}
use mathlib.Core.Logic.{◌⊎◌, inl, inr}
use mathlib.Core.Bool.{Bool, true, false, ◌&&◌, ◌||◌}
use mathlib.Core.Option.{Option, none, some}
use mathlib.Core.List.{List, [], ◌∷◌, ◌++◌, map}
use native.Mathlib.Omega.{arith}
use ai_kanban.Prelude.Tests.{if◌then◌else◌, Eq, ◌==◌, Bool-cases}

module _ {ℓ} {A : Type ℓ} where
  abbrev pub length : List A → ℕ
  length [] = 0
  length (x ∷ xs) = suc (length xs)

  abbrev pub take : ℕ → List A → List A
  take zero xs = []
  take (suc n) [] = []
  take (suc n) (x ∷ xs) = x ∷ take n xs

  abbrev pub filter : (A → Bool) → List A → List A
  filter p [] = []
  filter p (x ∷ xs) = if p x then x ∷ filter p xs else filter p xs

  abbrev pub find : (A → Bool) → List A → Option A
  find p [] = none
  find p (x ∷ xs) = if p x then some x else find p xs

  -- `some`
  abbrev pub any : (A → Bool) → List A → Bool
  any p [] = false
  any p (x ∷ xs) = p x || any p xs

  -- `every`
  abbrev pub all : (A → Bool) → List A → Bool
  all p [] = true
  all p (x ∷ xs) = p x && all p xs

  -- `at(0)`
  abbrev pub head? : List A → Option A
  head? [] = none
  head? (x ∷ xs) = some x

  -- `at(-1)`
  abbrev pub get_last? : List A → Option A
  get_last? [] = none
  get_last? (x ∷ []) = some x
  get_last? (x ∷ y ∷ xs) = get_last? (y ∷ xs)

  -- `splice(index, 1, value)` at `findIndex(p)`; nothing changes where no row passes.
  abbrev pub replace_first : (A → Bool) → A → List A → List A
  replace_first p v [] = []
  replace_first p v (x ∷ xs) = if p x then v ∷ xs else x ∷ replace_first p v xs

  -- `splice(index, 1)` at `findIndex(p)`.
  abbrev pub remove_first : (A → Bool) → List A → List A
  remove_first p [] = []
  remove_first p (x ∷ xs) = if p x then xs else x ∷ remove_first p xs

  -- A predicate on every item.
  abbrev pub All {κ} : (A → Type κ) → List A → Type κ
  All P [] = Unit
  All P (x ∷ xs) = P x × All P xs

  pub All-append {κ} : (P : A → Type κ) (xs ys : List A) → All P xs → All P ys → All P (xs ++ ys)
  All-append P [] ys h k = k
  All-append P (x ∷ xs) ys (p, h) k = (p, All-append P xs ys h k)

  pub All-filter {κ} :
      (P : A → Type κ) (p : A → Bool) (xs : List A) → All P xs → All P (filter p xs)
  All-filter P p [] h = tt
  All-filter P p (x ∷ xs) h = ground (arith, All-filter P p xs h.1)

  pub filter-All : (p : A → Bool) (xs : List A) → All (λ x. p x ≡ true) (filter p xs)
  filter-All p [] = tt
  filter-All p (x ∷ xs) = ground (arith, filter-All p xs)

  pub All-replace_first {κ} :
      (P : A → Type κ) (p : A → Bool) (v : A) (xs : List A)
      → All P xs
      → P v
      → All P (replace_first p v xs)
  All-replace_first P p v [] h k = tt
  All-replace_first P p v (x ∷ xs) h k = ground (arith, All-replace_first P p v xs h.1 k)

  pub All-imp {κ μ} :
      (P : A → Type κ) (Q : A → Type μ) (xs : List A) → ((x : A) → P x → Q x) → All P xs → All Q xs
  All-imp P Q [] f h = tt
  All-imp P Q (x ∷ xs) f (p, h) = (f x p, All-imp P Q xs f h)

  pub All-zip {κ μ ν} :
      (P : A → Type κ) (Q : A → Type μ) (R : A → Type ν) (xs : List A)
      → ((x : A) → P x → Q x → R x)
      → All P xs
      → All Q xs
      → All R xs
  All-zip P Q R [] f h k = tt
  All-zip P Q R (x ∷ xs) f (p, h) (q, k) = (f x p q, All-zip P Q R xs f h k)

  -- What `find` returns passes the test, and has whatever all items have.
  pub find-All {κ} :
      (P : A → Type κ) (p : A → Bool) (xs : List A) (x : A)
      → All P xs
      → find p xs ≡ some x
      → P x × (p x ≡ true)
  find-All P p [] x h e = cc
  find-All P p (y ∷ xs) x h e = ground (arith, find-All P p xs x h.1)

  pub find_passes : (p : A → Bool) (xs : List A) (x : A) → find p xs ≡ some x → p x ≡ true
  find_passes p [] x e = cc
  find_passes p (y ∷ xs) x e = ground (arith, find_passes p xs x)

  pub List-cases : (xs : List A) → (xs ≡ []) ⊎ ((y : A) × (ys : List A) × (xs ≡ y ∷ ys))
  List-cases [] = inl refl
  List-cases (y ∷ ys) = inr (y, ys, refl)

  pub head?-All {κ} : (P : A → Type κ) (xs : List A) (x : A) → All P xs → head? xs ≡ some x → P x
  head?-All P [] x h e = cc
  head?-All P (y ∷ xs) x (p, h) e = ground arith

  pub any-append : (p : A → Bool) (xs ys : List A) → any p (xs ++ ys) ≡ (any p xs || any p ys)
  any-append p [] ys = refl
  any-append p (x ∷ xs) ys = ground (arith, any-append p xs ys)

  pub any_of_find : (p : A → Bool) (xs : List A) (x : A) → find p xs ≡ some x → any p xs ≡ true
  any_of_find p [] x e = cc
  any_of_find p (y ∷ xs) x e = ground (arith, any_of_find p xs x)

module _ {ℓ} {A : Type ℓ} ⦃e : Eq A⦄ where
  -- `includes`
  abbrev pub includes : List A → A → Bool
  includes xs a = any (λ x. x == a) xs

  -- The items of `new Set(xs)`, in the order of their first occurrence.
  abbrev pub distinct_from : List A → List A → List A
  distinct_from seen [] = []
  distinct_from seen (x ∷ xs) =
      if includes seen x then distinct_from seen xs else x ∷ distinct_from (x ∷ seen) xs

  abbrev pub distinct : List A → List A
  distinct xs = distinct_from [] xs

module _ {ℓ} {A : Type ℓ} where
  -- How many items pass a test, over two lists and after two filters.
  pub length-filter-append :
      (p : A → Bool) (xs ys : List A)
      → length (filter p (xs ++ ys)) ≡ length (filter p xs) + length (filter p ys)
  length-filter-append p [] ys = omega arith
  length-filter-append p (x ∷ xs) ys = ground (arith, length-filter-append p xs ys)

  pub filter-append :
      (p : A → Bool) (xs ys : List A) → filter p (xs ++ ys) ≡ filter p xs ++ filter p ys
  filter-append p [] ys = refl
  filter-append p (x ∷ xs) ys = ground (arith, filter-append p xs ys)

  pub filter-filter :
      (p q : A → Bool) (xs : List A) → filter p (filter q xs) ≡ filter (λ x. q x && p x) xs
  filter-filter p q [] = refl
  filter-filter p q (x ∷ xs) = ground (arith, filter-filter p q xs)

  -- A replacement that passes only where the replaced item passed adds none.
  pub length-filter-replace_first-le :
      (p q : A → Bool) (v x : A) (xs : List A)
      → find q xs ≡ some x
      → (p v ≡ true → p x ≡ true)
      → length (filter p (replace_first q v xs)) ≤ length (filter p xs)
  length-filter-replace_first-le p q v x [] f h = omega arith
  length-filter-replace_first-le p q v x (y ∷ xs) f h =
      ground (arith, length-filter-replace_first-le p q v x xs)

pub length-filter-le_replace_first {ℓ} :
    {A : Type ℓ} (p q : A → Bool) (v : A) (xs : List A)
    → length (filter p xs) ≤ suc (length (filter p (replace_first q v xs)))
length-filter-le_replace_first p q v [] = omega arith
length-filter-le_replace_first p q v (x ∷ xs) =
    ground (arith, length-filter-le_replace_first p q v xs)

pub All-map {ℓ κ μ} :
    {A : Type ℓ} {B : Type κ} (P : B → Type μ) (f : A → B) (xs : List A)
    → All (λ x. P (f x)) xs
    → All P (map f xs)
All-map P f [] h = tt
All-map P f (x ∷ xs) (p, h) = (p, All-map P f xs h)

pub All-distinct_from {ℓ κ} :
    {A : Type ℓ} ⦃e : Eq A⦄ (P : A → Type κ) (seen xs : List A)
    → All P xs
    → All P (distinct_from seen xs)
All-distinct_from P seen [] h = tt
All-distinct_from P seen (x ∷ xs) (p, h) = elim (Bool-cases (includes seen x)) [
  | inl t ↦ rw t (All-distinct_from P seen xs h)
  | inr f ↦ rw f (p, All-distinct_from P (x ∷ seen) xs h)
]
