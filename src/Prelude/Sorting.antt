-- ===== src/Prelude/Sorting.antt =====
-- `sort` with a comparator: stable, given by its strict order.
use mathlib.Core.Bool.{Bool, false}
use mathlib.Core.List.{List, [], ◌∷◌, ◌++◌}
use native.Mathlib.Omega.{arith}
use ai_kanban.Prelude.Tests.{if◌then◌else◌}
use ai_kanban.Prelude.Lists.{All, length, filter, find, get_last?}
use mathlib.Core.Option.{none, some}
use mathlib.Core.Path.{◌≡◌, refl}

module _ {ℓ} {A : Type ℓ} (lt : A → A → Bool) where
  unfoldable pub insert_by : A → List A → List A
  insert_by x [] = x ∷ []
  insert_by x (y ∷ ys) = if lt y x then y ∷ insert_by x ys else x ∷ y ∷ ys

  unfoldable pub sort_by : List A → List A
  unfolding insert_by
  sort_by [] = []
  sort_by (x ∷ xs) = insert_by x (sort_by xs)

  pub All-insert_by {κ} :
      (P : A → Type κ) (x : A) (xs : List A) → P x → All P xs → All P (insert_by x xs)
  unfolding insert_by
  All-insert_by P x [] p h = (p, tt)
  All-insert_by P x (y ∷ ys) p h = ground (arith, All-insert_by P x ys p h.1)

  pub All-sort_by {κ} : (P : A → Type κ) (xs : List A) → All P xs → All P (sort_by xs)
  unfolding sort_by
  All-sort_by P [] h = tt
  All-sort_by P (x ∷ xs) (p, h) = All-insert_by P x (sort_by xs) p (All-sort_by P xs h)

  -- Sorting changes how many items pass a test no more than their order.
  pub length-filter-insert_by :
      (p : A → Bool) (x : A) (xs : List A)
      → length (filter p (insert_by x xs)) ≡ length (filter p (x ∷ xs))
  unfolding insert_by
  length-filter-insert_by p x [] = refl
  length-filter-insert_by p x (y ∷ ys) = ground (arith, length-filter-insert_by p x ys)

  pub length-filter-sort_by :
      (p : A → Bool) (xs : List A) → length (filter p (sort_by xs)) ≡ length (filter p xs)
  unfolding sort_by
  length-filter-sort_by p [] = refl
  length-filter-sort_by p (x ∷ xs) =
      ground (arith, length-filter-insert_by p x (sort_by xs), length-filter-sort_by p xs)

  get_last?-insert_by :
      (x v : A) (ys : List A)
      → get_last? ys ≡ some v
      → lt v x ≡ false
      → get_last? (insert_by x ys) ≡ some v
  unfolding insert_by
  get_last?-insert_by x v [] h k = cc
  get_last?-insert_by x v (y ∷ []) h k = ground arith
  get_last?-insert_by x v (y ∷ z ∷ ys) h k = ground (arith, get_last?-insert_by x v (z ∷ ys) h k)

  -- A greatest item that is appended last is sorted last.
  pub get_last?-sort_by_append :
      (xs : List A) (v : A)
      → All (λ x. lt v x ≡ false) xs
      → get_last? (sort_by (xs ++ v ∷ [])) ≡ some v
  unfolding sort_by insert_by
  get_last?-sort_by_append [] v h = refl
  get_last?-sort_by_append (x ∷ xs) v (p, h) =
      get_last?-insert_by x v (sort_by (xs ++ v ∷ [])) (get_last?-sort_by_append xs v h) p

  find-insert_by-none :
      (p : A → Bool) (x : A) (ys : List A)
      → find p (insert_by x ys) ≡ none
      → (p x ≡ false) × (find p ys ≡ none)
  unfolding insert_by
  find-insert_by-none p x [] h = (ground arith, refl)
  find-insert_by-none p x (y ∷ ys) h = ground (arith, find-insert_by-none p x ys)

  -- Where no sorted item passes, no item does.
  pub find-sort_by-none :
      (p : A → Bool) (xs : List A) → find p (sort_by xs) ≡ none → All (λ x. p x ≡ false) xs
  unfolding sort_by
  find-sort_by-none p [] h = tt
  find-sort_by-none p (x ∷ xs) h =
      let (a, b) = find-insert_by-none p x (sort_by xs) h in (a, find-sort_by-none p xs b)
