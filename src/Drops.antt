-- ===== src/Drops.antt =====
-- packages/web/src/board/move-options.ts: what a drop asks for.
pub mod Ignored
use ai_kanban.Prelude.{
  AllDistinct, some-cancel, filter, ◌!=◌, subst, In-append, In, sym, none, Option, ◌+◌, ◌≢◌, ◌⊎◌, ℕ,
  zero, suc, ◌≤◌, true, false, some, List, [], ◌∷◌, ◌++◌, nat_eq, string_eq, option_eq, ◌==◌, head?,
  get_last?, length, ◌≡◌, inl, inr, refl, arith, ap, ◌∙◌, List-cases, Bool-cases, Option-cases,
}
use ai_kanban.Domain.Errors.{with_some}
use ai_kanban.Web.MoveOptions.{
  LaneCards, DropTarget, MoveIntent, lane_of, others_of, get_elem?, before, find_index, drop_index,
  intent_at, is_same_position, move_intent_from_drop, is_top, Edge,
}

get_elem?-first : (items : List ℕ) → get_elem? items 0 ≡ head? items
get_elem?-first [] = refl
get_elem?-first (x ∷ items) = refl

-- An index within a list splits it there.
pub split_at :
    (items : List ℕ) (index : ℕ)
    → index ≤ length items
    → (xs ys : List ℕ) × (items ≡ xs ++ ys)
      × (length xs ≡ index)
      × (before items index ≡ get_last? xs)
      × (get_elem? items index ≡ head? ys)
split_at [] zero h = ([], [], refl, refl, refl, refl)
split_at (x ∷ items) zero h = ([], x ∷ items, refl, refl, refl, refl)
split_at [] (suc index) h = absurd (omega arith)
split_at (x ∷ items) (suc zero) h = (x ∷ [], items, refl, refl, refl, get_elem?-first items)
split_at (x ∷ items) (suc (suc index)) h =
    let (xs, ys, e, l, b, n) = split_at items (suc index) (omega arith) in
    elim (List-cases xs) [
      | inl q ↦ absurd (ground arith)
      | inr (y, zs, q) ↦ (x ∷ xs, ys, ap (λ l. x ∷ l) e, ground arith, ground arith, n)
    ]

pub find_index-lt :
    (items : List ℕ) (id at : ℕ) → find_index items id ≡ some at → suc at ≤ length items
find_index-lt [] id at h = absurd (ground arith)
find_index-lt (x ∷ items) id at h = elim (Option-cases (find_index items id)) [
  | inl e ↦ ground arith
  | inr (k, e) ↦ ground (arith, find_index-lt items id k e)
]

pub drop_index-le :
    (others : List ℕ) (target : DropTarget) → drop_index others target ≤ length others
unfolding drop_index
drop_index-le others target = elim (Option-cases target.over_card_id) [
  | inl e ↦ ground arith
  | inr (over, e) ↦ elim (Option-cases (find_index others over)) [
    | inl f ↦ ground arith
    | inr (at, f) ↦ ground (arith, find_index-lt others over at f)
  ]
]

find_index-none : (items : List ℕ) (id : ℕ) → find_index items id ≡ none → ¬ In id items
find_index-none [] id h i = absurd i
find_index-none (x ∷ items) id h i = elim i [
  | inl e ↦ let t = (nat_eq.equal_iff x id).1 (sym e) in ground arith
  | inr j ↦ find_index-none items id (ground (arith, Option-cases (find_index items id))) j
]

pub find_index-get_elem? :
    (items : List ℕ) (id at : ℕ)
    → find_index items id ≡ some at
    → (get_elem? items at ≡ some id) × In id items
find_index-get_elem? [] id at h = absurd (ground arith)
find_index-get_elem? (x ∷ items) id at h = elim (Bool-cases (x == id)) [
  | inl t ↦
      let same : x ≡ id = (nat_eq.equal_iff x id).0 t in
      let first : at ≡ 0 = ground arith in (rw first (ap some same), inl (sym same))
  | inr f ↦ elim (Option-cases (find_index items id)) [
    | inl e ↦ absurd (ground arith)
    | inr (k, e) ↦
        let (g, i) = find_index-get_elem? items id k e in
        let next : at ≡ suc k = ground arith in (rw next g, inr i)
  ]
]

-- The place between `xs` and `ys` is the one that the drop aims at: before or after the card under
-- the pointer, by the edge, and the end of the lane where there is no other card under it.
abbrev pub IsAimed : DropTarget → List ℕ → List ℕ → Type 0
IsAimed target xs ys =
    ((over : ℕ) × (target.over_card_id ≡ some over)
      × (((target.edge ≡ some Edge.top) × (head? ys ≡ some over))
          ⊎ ((target.edge ≢ some Edge.top) × (get_last? xs ≡ some over))))
    ⊎ (((over : ℕ) → target.over_card_id ≡ some over → ¬ In over (xs ++ ys)) × (ys ≡ []))

edge_cases :
    (edge : Option Edge)
    → ((is_top edge ≡ true) × (edge ≡ some Edge.top))
      ⊎ ((is_top edge ≡ false) × (edge ≢ some Edge.top))
edge_cases none = inr (refl, λ e. ground arith)
edge_cases (some Edge.top) = inl (refl, refl)
edge_cases (some Edge.bottom) = inr (refl, λ e. let t : true ≡ false = ap is_top (sym e) in cc)

length-append : (xs ys : List ℕ) → length (xs ++ ys) ≡ length xs + length ys
length-append [] ys = omega arith
length-append (x ∷ xs) ys = omega (arith, length-append xs ys)

append-end : (xs ys items : List ℕ) → items ≡ xs ++ ys → length xs ≡ length items → ys ≡ []
append-end xs ys items e l =
    let n : length items ≡ length xs + length ys = ap length e ∙ length-append xs ys in
    elim (List-cases ys) [
      | inl q ↦ q
      | inr (y, zs, q) ↦ let m = ap length q in absurd (ground arith)
    ]

pub drop_index-IsAimed :
    (others : List ℕ) (target : DropTarget) (xs ys : List ℕ)
    → others ≡ xs ++ ys
    → length xs ≡ drop_index others target
    → before others (drop_index others target) ≡ get_last? xs
    → get_elem? others (drop_index others target) ≡ head? ys
    → IsAimed target xs ys
unfolding drop_index
drop_index-IsAimed others target xs ys e l b n = elim (Option-cases target.over_card_id) [
  | inl q ↦ inr (λ over p. ground arith, append-end xs ys others e (ground arith))
  | inr (over, q) ↦ elim (Option-cases (find_index others over)) [
    | inl f ↦ inr (
      λ o p i.
          let same : over ≡ o = ground arith in find_index-none others over f (rw same (rw e i)),
      append-end xs ys others e (ground arith),
    )
    | inr (at, f) ↦
        let (g, i) = find_index-get_elem? others over at f in
        elim (edge_cases target.edge) [
          | inl (t, edge) ↦ inl (over, q, inl (edge, ground arith))
          | inr (t, edge) ↦
              let one : at + 1 ≡ suc at = omega arith in
              let next : before others (at + 1) ≡ get_elem? others at = ap (before others) one in
              inl (over, q, inr (edge, ground arith))
        ]
  ]
]

before-append : (xs ys : List ℕ) → before (xs ++ ys) (length xs) ≡ get_last? xs
before-append [] ys = refl
before-append (x ∷ []) ys = refl
before-append (x ∷ y ∷ xs) ys = before-append (y ∷ xs) ys

get_elem?-append :
    (xs : List ℕ) (id : ℕ) (ys : List ℕ) → get_elem? (xs ++ id ∷ ys) (length xs + 1) ≡ head? ys
get_elem?-append [] id [] = refl
get_elem?-append [] id (y ∷ ys) = refl
get_elem?-append (x ∷ xs) id ys =
    let one : suc (length xs) + 1 ≡ suc (length xs + 1) = omega arith in
    ap (get_elem? (x ∷ (xs ++ id ∷ ys))) one ∙ get_elem?-append xs id ys

find_index-append :
    (xs ys : List ℕ) (id : ℕ) → (¬ In id xs) → find_index (xs ++ id ∷ ys) id ≡ some (length xs)
find_index-append [] ys id h = let t = (nat_eq.equal_iff id id).1 refl in ground arith
find_index-append (x ∷ xs) ys id h =
    let ih = find_index-append xs ys id (λ i. h (inr i)) in
    elim (Bool-cases (x == id)) [
      | inl t ↦ absurd (h (inl (sym ((nat_eq.equal_iff x id).0 t))))
      | inr f ↦ ground arith
    ]

not_among : (ids : List ℕ) (id : ℕ) → ¬ In id (filter (λ x. x != id) ids)
not_among [] id i = absurd i
not_among (x ∷ ids) id i = elim (Bool-cases (x == id)) [
  | inl t ↦
      let e : filter (λ x. x != id) (x ∷ ids) ≡ filter (λ x. x != id) ids = ground arith in
      not_among ids id (subst (λ l. In id l) e i)
  | inr f ↦
      let e : filter (λ x. x != id) (x ∷ ids) ≡ x ∷ filter (λ x. x != id) ids = ground arith in
      elim (subst (λ l. In id l) e i) [
        | inl e ↦ let t = (nat_eq.equal_iff x id).1 (sym e) in cc
        | inr k ↦ not_among ids id k
      ]
]

-- A card between its present neighbours is at its own place.
is_same_position-append :
    (lanes : List LaneCards) (lane : LaneCards) (card_id : ℕ) (intent : MoveIntent) (xs ys : List ℕ)
    → lane_of lanes intent.to_lane ≡ some lane
    → lane.card_ids ≡ xs ++ card_id ∷ ys
    → (¬ In card_id xs)
    → intent.prev_card_id ≡ get_last? xs
    → intent.next_card_id ≡ head? ys
    → is_same_position lanes card_id intent ≡ true
unfolding is_same_position
is_same_position-append lanes lane card_id intent xs ys l c h p n =
    let found = ap (λ ids. find_index ids card_id) c ∙ find_index-append xs ys card_id h in
    let left = ap (λ ids. before ids (length xs)) c ∙ before-append xs (card_id ∷ ys) in
    let right = ap (λ ids. get_elem? ids (length xs + 1)) c ∙ get_elem?-append xs card_id ys in
    let same_left =
      (option_eq.equal_iff intent.prev_card_id (before lane.card_ids (length xs))).1
        (p ∙ sym left) in
    let same_right =
      (option_eq.equal_iff intent.next_card_id (get_elem? lane.card_ids (length xs + 1))).1
        (n ∙ sym right) in
    ground arith

-- A drop that moves a card names as its neighbours the last card before and the first card after one
-- place in the target lane without the card: next to the card under the pointer, before it at its top
-- edge and else after it, or at the end of the lane where no other card of it is there. The card does
-- not stand at this place already.
pub move_intent_from_drop-IsAimed :
    (lanes : List LaneCards) (card_id : ℕ) (target : DropTarget) (intent : MoveIntent)
    → move_intent_from_drop lanes card_id target ≡ some intent
    → (lane : LaneCards) × (lane_of lanes target.lane_key ≡ some lane)
      × (intent.to_lane ≡ target.lane_key)
      × ((xs ys : List ℕ) × (filter (λ id. id != card_id) lane.card_ids ≡ xs ++ ys)
          × IsAimed target xs ys
          × (intent.prev_card_id ≡ get_last? xs)
          × (intent.next_card_id ≡ head? ys)
          × (lane.card_ids ≢ xs ++ card_id ∷ ys))
unfolding move_intent_from_drop
move_intent_from_drop-IsAimed lanes card_id target intent h =
    with_some (lane_of lanes target.lane_key) (λ e. ground arith)
      λ lane f.
        let others = others_of lane card_id in
        let index = drop_index others target in
        let made = intent_at target.lane_key others index in
        let (xs, ys, e, l, b, n) = split_at others index (drop_index-le others target) in
        let same : intent ≡ made = ground arith in
        let moved : is_same_position lanes card_id made ≡ false = ground arith in
        let absent : ¬ In card_id xs =
          λ i. not_among lane.card_ids card_id (rw e ((In-append xs ys card_id).1 (inl i))) in
        (
          lane,
          f,
          rw same refl,
          (
            xs,
            ys,
            e,
            drop_index-IsAimed others target xs ys e l b n,
            rw same b,
            rw same n,
            λ c. let t = is_same_position-append lanes lane card_id made xs ys f c absent b n in cc,
          ),
        )
