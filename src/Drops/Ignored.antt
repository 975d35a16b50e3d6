-- ===== src/Drops/Ignored.antt =====
-- packages/web/src/board/move-options.ts: when a drop is ignored.
use ai_kanban.Prelude.{
  AllDistinct, some-cancel, filter, ◌!=◌, subst, In-append, In, sym, none, ◌≢◌, ℕ, ◌≤◌, true, false,
  some, List, [], ◌∷◌, ◌++◌, nat_eq, string_eq, option_eq, ◌==◌, get_last?, length, ◌≡◌, inl, inr,
  refl, arith, ap, ◌∙◌, List-cases, Bool-cases, Option-cases,
}
use ai_kanban.Web.MoveOptions.{
  LaneCards, DropTarget, MoveIntent, lane_of, others_of, before, find_index, drop_index, intent_at,
  is_same_position, move_intent_from_drop,
}
use ai_kanban.Drops.{
  split_at, find_index-lt, drop_index-le, find_index-get_elem?, drop_index-IsAimed, IsAimed,
}

kept : (ids : List ℕ) (id : ℕ) → (¬ In id ids) → filter (λ x. x != id) ids ≡ ids
kept [] id h = refl
kept (x ∷ ids) id h =
    let ih = kept ids id (λ i. h (inr i)) in
    elim (Bool-cases (x == id)) [
      | inl t ↦ absurd (h (inl (sym ((nat_eq.equal_iff x id).0 t))))
      | inr f ↦ ground arith
    ]

-- Without the card, what was before and after it stays.
others-append :
    (xs ys : List ℕ) (id : ℕ)
    → AllDistinct (xs ++ id ∷ ys)
    → filter (λ x. x != id) (xs ++ id ∷ ys) ≡ xs ++ ys
others-append [] ys id (n, d) =
    let t = (nat_eq.equal_iff id id).1 refl in let ih = kept ys id n in ground arith
others-append (x ∷ xs) ys id (n, d) =
    let ih = others-append xs ys id d in
    elim (Bool-cases (x == id)) [
      | inl t ↦ absurd (n ((In-append xs (id ∷ ys) x).1 (inr (inl ((nat_eq.equal_iff x id).0 t)))))
      | inr f ↦ ground arith
    ]

distinct_without : (xs ys : List ℕ) (id : ℕ) → AllDistinct (xs ++ id ∷ ys) → AllDistinct (xs ++ ys)
distinct_without [] ys id (n, d) = d
distinct_without (x ∷ xs) ys id (n, d) = (
  λ i. n (elim ((In-append xs ys x).0 i) [
    | inl j ↦ (In-append xs (id ∷ ys) x).1 (inl j)
    | inr j ↦ (In-append xs (id ∷ ys) x).1 (inr (inr j))
  ]),
  distinct_without xs ys id d,
)

get_last?-In : (xs : List ℕ) (a : ℕ) → get_last? xs ≡ some a → In a xs
get_last?-In [] a h = absurd (ground arith)
get_last?-In (x ∷ []) a h = inl (some-cancel (sym h))
get_last?-In (x ∷ y ∷ xs) a h = inr (get_last?-In (y ∷ xs) a h)

last-some : (x : ℕ) (xs : List ℕ) → get_last? (x ∷ xs) ≢ none
last-some x [] h = ground arith
last-some x (y ∷ xs) h = last-some y xs h

cons-cancel : (x y : ℕ) (xs ys : List ℕ) → x ∷ xs ≡ y ∷ ys → (x ≡ y) × (xs ≡ ys)
cons-cancel x y xs ys h = (ground arith, ground arith)

-- A place in a list without repetition is known by the item before it.
same_place :
    (xs ys zs ws : List ℕ)
    → AllDistinct (xs ++ ys)
    → xs ++ ys ≡ zs ++ ws
    → get_last? xs ≡ get_last? zs
    → xs ≡ zs
same_place [] ys [] ws d e l = refl
same_place [] ys (z ∷ zs) ws d e l = absurd (last-some z zs (sym l))
same_place (x ∷ xs) ys [] ws d e l = absurd (last-some x xs l)
same_place (x ∷ []) ys (z ∷ []) ws d e l = ap (λ v. v ∷ []) (cons-cancel x z ys ws e).0
same_place (x ∷ []) ys (z ∷ z' ∷ zs) ws (n, d) e l =
    let tails = (cons-cancel x z ys ((z' ∷ zs) ++ ws) e).1 in
    let i = (In-append (z' ∷ zs) ws x).1 (inl (get_last?-In (z' ∷ zs) x (sym l))) in
    absurd (n (subst (λ v. In x v) (sym tails) i))
same_place (x ∷ x' ∷ xs) ys (z ∷ []) ws (n, d) e l =
    let heads = (cons-cancel x z ((x' ∷ xs) ++ ys) ws e).0 in
    absurd
      (n ((In-append (x' ∷ xs) ys x).1 (inl (get_last?-In (x' ∷ xs) x (l ∙ ap some (sym heads))))))
same_place (x ∷ x' ∷ xs) ys (z ∷ z' ∷ zs) ws (n, d) e l =
    let (heads, tails) = cons-cancel x z ((x' ∷ xs) ++ ys) ((z' ∷ zs) ++ ws) e in
    let rest = same_place (x' ∷ xs) ys (z' ∷ zs) ws d tails l in
    ap (λ v. v ∷ x' ∷ xs) heads ∙ ap (λ v. z ∷ v) rest

append-cancel : (xs ys zs : List ℕ) → xs ++ ys ≡ xs ++ zs → ys ≡ zs
append-cancel [] ys zs h = h
append-cancel (x ∷ xs) ys zs h = append-cancel xs ys zs (cons-cancel x x (xs ++ ys) (xs ++ zs) h).1

find_index-le : (items : List ℕ) (id at : ℕ) → find_index items id ≡ some at → at ≤ length items
find_index-le items id at h = omega (arith, find_index-lt items id at h)

-- A card at its own place stands between its present neighbours.
is_same_position-split :
    (lanes : List LaneCards) (lane : LaneCards) (card_id : ℕ) (intent : MoveIntent)
    → lane_of lanes intent.to_lane ≡ some lane
    → is_same_position lanes card_id intent ≡ true
    → (xs ys : List ℕ) × (lane.card_ids ≡ xs ++ card_id ∷ ys) × (intent.prev_card_id ≡ get_last? xs)
unfolding is_same_position
is_same_position-split lanes lane card_id intent l h =
    elim (Option-cases (find_index lane.card_ids card_id)) [
      | inl e ↦ absurd (ground arith)
      | inr (at, e) ↦
          let (xs, zs, c, n, b, g) =
            split_at lane.card_ids at (find_index-le lane.card_ids card_id at e) in
          let (here, i) = find_index-get_elem? lane.card_ids card_id at e in
          let prev : intent.prev_card_id ≡ before lane.card_ids at =
            (option_eq.equal_iff intent.prev_card_id (before lane.card_ids at)).0 (ground arith) in
          elim (List-cases zs) [
            | inl q ↦ absurd (ground arith)
            | inr (y, ys, q) ↦
                let first : y ≡ card_id = ground arith in
                (xs, ys, c ∙ ap (λ v. xs ++ v) (q ∙ ap (λ v. v ∷ ys) first), prev ∙ b)
          ]
    ]

-- A drop on another card or on a lane of the board, in which no card stands twice, is ignored only
-- where the card stands already at the place that the drop aims at.
pub move_intent_from_drop-ignored :
    (lanes : List LaneCards) (lane : LaneCards) (card_id : ℕ) (target : DropTarget)
    → lane_of lanes target.lane_key ≡ some lane
    → AllDistinct lane.card_ids
    → target.over_card_id ≢ some card_id
    → move_intent_from_drop lanes card_id target ≡ none
    → (xs ys : List ℕ) × (lane.card_ids ≡ xs ++ card_id ∷ ys) × IsAimed target xs ys
unfolding move_intent_from_drop
move_intent_from_drop-ignored lanes lane card_id target l d other h =
    let others = others_of lane card_id in
    let index = drop_index others target in
    let made = intent_at target.lane_key others index in
    let (xs, ys, e, n, b, g) = split_at others index (drop_index-le others target) in
    let elsewhere : (target.over_card_id == some card_id) ≡ false =
      elim (Bool-cases (target.over_card_id == some card_id)) [
        | inl t ↦ absurd (other ((option_eq.equal_iff target.over_card_id (some card_id)).0 t))
        | inr f ↦ f
      ] in
    let same : is_same_position lanes card_id made ≡ true =
      elim (Bool-cases (is_same_position lanes card_id made)) [
        | inl t ↦ t
        | inr f ↦ absurd (ground arith)
      ] in
    let (front, bs, c, p) = is_same_position-split lanes lane card_id made l same in
    let d' : AllDistinct (front ++ card_id ∷ bs) = subst AllDistinct c d in
    let without : others ≡ front ++ bs =
      ap (filter (λ id. id != card_id)) c ∙ others-append front bs card_id d' in
    let place : front ≡ xs =
      same_place front bs xs ys (distinct_without front bs card_id d') (sym without ∙ e)
        (sym p ∙ b) in
    let after : bs ≡ ys =
      append-cancel xs bs ys (ap (λ v. v ++ bs) (sym place) ∙ sym without ∙ e) in
    (
      front,
      bs,
      c,
      subst (λ v. IsAimed target front v) (sym after)
          (subst (λ v. IsAimed target v ys) (sym place)
            (drop_index-IsAimed others target xs ys e n b g)),
    )
