-- ===== src/Prelude/Members.antt =====
-- Membership and distinctness of list items, against the Boolean tests that compute them.
use Prim.Native.Nat.{◌≤◌}
use mathlib.Core.Path.{◌≡◌, refl, ap}
use mathlib.Core.Logic.{◌↔◌, ◌⊎◌, inl, inr}
use mathlib.Core.Bool.{Bool, true, false}
use mathlib.Core.Option.{none, some}
use mathlib.Core.List.{List, [], ◌∷◌, ◌++◌, map}
use native.Mathlib.Omega.{arith}
use ai_kanban.Prelude.Tests.{Eq, ◌==◌, Bool-cases, nat_eq, some-cancel}
use ai_kanban.Prelude.Lists.{
  length, find, filter, any, includes, distinct_from, distinct, All, replace_first,
}

module _ {A : Type 0} where
  -- `a` is an item of the list.
  abbrev pub In : A → List A → Type 0
  In a [] = ⊥
  In a (x ∷ xs) = (a ≡ x) ⊎ In a xs

  -- No two places of the list hold the same item.
  abbrev pub AllDistinct : List A → Type 0
  AllDistinct [] = Unit
  AllDistinct (x ∷ xs) = (In x xs → ⊥) × AllDistinct xs

  pub All-In {κ} : (P : A → Type κ) (xs : List A) (a : A) → All P xs → In a xs → P a
  All-In P [] a h i = absurd i
  All-In P (x ∷ xs) a (p, h) (inl e) = rw e p
  All-In P (x ∷ xs) a (p, h) (inr i) = All-In P xs a h i

  pub All-of_In {κ} : (P : A → Type κ) (xs : List A) → ((a : A) → In a xs → P a) → All P xs
  All-of_In P [] f = tt
  All-of_In P (x ∷ xs) f = (f x (inl refl), All-of_In P xs (λ a i. f a (inr i)))

  pub In-of_find : (p : A → Bool) (xs : List A) (a : A) → find p xs ≡ some a → In a xs
  In-of_find p [] a e = cc
  In-of_find p (x ∷ xs) a e = elim (Bool-cases (p x)) [
    | inl t ↦ inl (ground arith)
    | inr f ↦ inr (In-of_find p xs a (ground arith))
  ]

  -- Where `find` finds nothing, no item passes.
  pub find-none : (p : A → Bool) (xs : List A) (a : A) → find p xs ≡ none → In a xs → p a ≡ false
  find-none p [] a h i = absurd i
  find-none p (x ∷ xs) a h (inl e) = rw e (ground arith)
  find-none p (x ∷ xs) a h (inr i) = find-none p xs a (ground arith) i

  -- An item that does not pass is not replaced.
  pub In-replace_first :
      (p : A → Bool) (v : A) (xs : List A) (a : A)
      → p a ≡ false
      → In a xs
      → In a (replace_first p v xs)
  In-replace_first p v [] a n i = absurd i
  In-replace_first p v (x ∷ xs) a n i = elim (Bool-cases (p x)) [
    | inl t ↦ rw t (elim i [ inl e ↦ absurd (cc (t, n, ap p e)) | inr j ↦ inr j ])
    | inr f ↦ rw f (elim i [ inl e ↦ inl e | inr j ↦ inr (In-replace_first p v xs a n j) ])
  ]

  pub In-append : (xs ys : List A) (a : A) → In a (xs ++ ys) ↔ (In a xs ⊎ In a ys)
  In-append [] ys a = (λ i. inr i, λ h. elim h [ inl i ↦ absurd i | inr i ↦ i ])
  In-append (x ∷ xs) ys a =
      let ih : In a (xs ++ ys) ↔ (In a xs ⊎ In a ys) = In-append xs ys a in
      (
        λ i. elim i [
          | inl e ↦ inl (inl e)
          | inr j ↦ elim (ih.0 j) [ inl k ↦ inl (inr k) | inr k ↦ inr k ]
        ],
        λ h. elim h [
          | inl i ↦ elim i [ inl e ↦ inl e | inr k ↦ inr (ih.1 (inl k)) ]
          | inr k ↦ inr (ih.1 (inr k))
        ],
      )

  -- `filter` keeps exactly the items that pass.
  pub In-filter :
      (p : A → Bool) (xs : List A) (a : A) → In a (filter p xs) ↔ (In a xs × (p a ≡ true))
  In-filter p [] a = (λ i. absurd i, λ h. absurd h.0)
  In-filter p (x ∷ xs) a = elim (Bool-cases (p x)) [
    | inl t ↦ rw t (
      λ i. elim i [
        | inl e ↦ (inl e, rw e t)
        | inr j ↦ (inr ((In-filter p xs a).0 j).0, ((In-filter p xs a).0 j).1)
      ],
      λ (i, q). elim i [ inl e ↦ inl e | inr j ↦ inr ((In-filter p xs a).1 (j, q)) ],
    )
    | inr f ↦ rw f (
      λ j. (inr ((In-filter p xs a).0 j).0, ((In-filter p xs a).0 j).1),
      λ (i, q). elim i [ inl e ↦ cc (ap p e) | inr j ↦ (In-filter p xs a).1 (j, q) ],
    )
  ]

  pub any_iff :
      (p : A → Bool) (xs : List A) → (any p xs ≡ true) ↔ ((a : A) × In a xs × (p a ≡ true))
  any_iff p [] = (λ e. cc, λ (a, i, q). absurd i)
  any_iff p (x ∷ xs) = elim (Bool-cases (p x)) [
    | inl t ↦ rw t (λ _. (x, inl refl, t), λ _. refl)
    | inr f ↦ rw f (
      λ e. let (a, i, q) = (any_iff p xs).0 e in (a, inr i, q),
      λ (a, i, q). elim i [ inl e ↦ cc (ap p e) | inr j ↦ (any_iff p xs).1 (a, j, q) ],
    )
  ]

module _ {A : Type 0} ⦃e : Eq A⦄ where
  pub includes_iff : (xs : List A) (a : A) → (includes xs a ≡ true) ↔ In a xs
  includes_iff xs a = (
    λ t. let (b, i, q) = (any_iff (λ x. x == a) xs).0 t in rw (← (e.equal_iff b a).0 q) i,
    λ i. (any_iff (λ x. x == a) xs).1 (a, i, (e.equal_iff a a).1 refl),
  )

  length-distinct_from-le : (seen xs : List A) → length (distinct_from seen xs) ≤ length xs
  length-distinct_from-le seen [] = omega arith
  length-distinct_from-le seen (x ∷ xs) =
      ground (arith, length-distinct_from-le seen xs, length-distinct_from-le (x ∷ seen) xs)

  distinct_from-AllDistinct :
      (seen xs : List A)
      → length (distinct_from seen xs) ≡ length xs
      → ((a : A) → In a xs → In a seen → ⊥) × AllDistinct xs
  distinct_from-AllDistinct seen [] h = (λ a i. absurd i, tt)
  distinct_from-AllDistinct seen (x ∷ xs) h = elim (Bool-cases (includes seen x)) [
    | inl old ↦ absurd (ground (arith, length-distinct_from-le seen xs))
    | inr new ↦
        let (apart, rest) = distinct_from-AllDistinct (x ∷ seen) xs (ground arith) in
        (
          λ a i s. elim i [
            | inl q ↦ cc (new, (includes_iff seen x).1 (rw (← q) s))
            | inr j ↦ apart a j (inr s)
          ],
          (λ i. apart x i (inl refl), rest),
        )
  ]

  -- `new Set(xs).size === xs.length` says that the items are distinct.
  pub distinct-AllDistinct :
      (xs : List A) → (length (distinct xs) == length xs) ≡ true → AllDistinct xs
  distinct-AllDistinct xs h = (distinct_from-AllDistinct [] xs (ground arith)).1

pub In-map :
    {A : Type 0} {B : Type 0} (f : A → B) (xs : List A) (a : A) → In a xs → In (f a) (map f xs)
In-map f [] a i = absurd i
In-map f (x ∷ xs) a (inl e) = inl (ap f e)
In-map f (x ∷ xs) a (inr i) = inr (In-map f xs a i)

-- With distinct keys, `find` by key returns the only item of that key.
pub find_by_key :
    {A : Type 0} {K : Type 0} ⦃e : Eq K⦄ (key : A → K) (k : K) (xs : List A) (a : A)
    → AllDistinct (map key xs)
    → In a xs
    → key a ≡ k
    → find (λ x. key x == k) xs ≡ some a
find_by_key key k [] a d i h = absurd i
find_by_key ⦃e⦄ key k (x ∷ xs) a (fresh, d) (inl q) h = rw (← q, (e.equal_iff (key a) k).1 h) refl
find_by_key ⦃e⦄ key k (x ∷ xs) a (fresh, d) (inr i) h = elim (Bool-cases (key x == k)) [
  | inl t ↦ absurd (fresh (rw ((e.equal_iff (key x) k).0 t, ← h) (In-map key xs a i)))
  | inr f ↦ rw f (find_by_key key k xs a d i h)
]

-- With distinct keys, an item is known by its key.
pub same_by_key :
    {A : Type 0} {K : Type 0} ⦃e : Eq K⦄ (key : A → K) (xs : List A) (a b : A)
    → AllDistinct (map key xs)
    → In a xs
    → In b xs
    → key a ≡ key b
    → a ≡ b
same_by_key key xs a b d i j h =
    some-cancel (cc (find_by_key key (key b) xs a d i h, find_by_key key (key b) xs b d j refl))
