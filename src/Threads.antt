-- ===== src/Threads.antt =====
-- packages/core/src/services/comment-service.ts: threads of one level, and who may change a comment.
use ai_kanban.Prelude.{
  ℕ, Bool, Option, none, some, List, [], ◌∷◌, ◌++◌, ◌≡◌, ◌⊎◌, inl, inr, refl, arith, In, In-append,
  In-of_find, All, All-append, All-imp, All-replace_first, All-In, ap, find, replace_first, nat_eq,
  ◌==◌, Bool-cases, Option-cases,
}
use ai_kanban.Domain.Vocabulary.{Uuid}
use ai_kanban.Domain.Entities.{Comment}
use ai_kanban.Domain.Errors.{ok, with_some}
use ai_kanban.Db.State.{DbState}
use ai_kanban.Db.Rows.{find_comment}
use ai_kanban.Services.Comment

-- `q` is a comment of the list that starts a thread on the card.
abbrev pub IsRoot : List Comment → Uuid → ℕ → Comment → Type 0
IsRoot comments id card_id q =
    In q comments × (q.id ≡ id) × (q.card_id ≡ card_id) × (q.parent_comment_id ≡ none)

-- A comment either starts a thread or replies to one that does, on the same card.
abbrev pub HasRoot : List Comment → Comment → Type 0
HasRoot comments c =
    (p : Uuid) → c.parent_comment_id ≡ some p → (q : Comment) × IsRoot comments p c.card_id q

-- Threads have one level.
abbrev pub IsThreaded : List Comment → Type 0
IsThreaded comments = All (HasRoot comments) comments

-- The parent that `add` stores starts a thread.
pub parent_of-IsRoot :
    (card_id : ℕ) (reply_to : Option Uuid) (db : DbState) (p : Uuid)
    → IsThreaded db.comments
    → Comment.parent_of card_id reply_to db ≡ ok (some p)
    → (q : Comment) × IsRoot db.comments p card_id q
unfolding Comment.parent_of find_comment
parent_of-IsRoot card_id none db p threads h = absurd (ground arith)
parent_of-IsRoot card_id (some id) db p threads h =
    with_some (find_comment id db) (λ e. ground arith)
      λ parent f.
        let i = In-of_find (λ c. c.id == id) db.comments parent f in
        elim (Option-cases parent.parent_comment_id) [
          | inl root ↦ (parent, (i, ground arith, ground arith, root))
          | inr (r, e) ↦
              let (q, (j, a, b, c)) = All-In _ db.comments parent threads i r e in
              (q, (j, ground arith, ground arith, c))
        ]

-- Later comments keep the roots of a list.
HasRoot-append :
    (comments more : List Comment) (c : Comment) → HasRoot comments c → HasRoot (comments ++ more) c
HasRoot-append comments more c h p e =
    let (q, (i, a, b, d)) = h p e in (q, ((In-append comments more q).1 (inl i), a, b, d))

pub append_one-IsThreaded :
    (comments : List Comment) (c : Comment)
    → IsThreaded comments
    → HasRoot comments c
    → IsThreaded (comments ++ c ∷ [])
append_one-IsThreaded comments c threads h =
    All-append _ comments (c ∷ []) (All-imp _ _ comments (HasRoot-append comments (c ∷ [])) threads)
      (HasRoot-append comments (c ∷ []) c h, tt)

-- A row that is not the one replaced stays.
In-replace_first :
    (p : Comment → Bool) (v : Comment) (xs : List Comment) (x q : Comment)
    → find p xs ≡ some x
    → In q xs
    → In q (replace_first p v xs) ⊎ ((q ≡ x) × In v (replace_first p v xs))
In-replace_first p v [] x q f i = absurd i
In-replace_first p v (y ∷ xs) x q f i = elim (Bool-cases (p y)) [
  | inl t ↦ rw t (elim i [ inl e ↦ inr (ground arith, inl refl) | inr j ↦ inl (inr j) ])
  | inr n ↦ rw n (elim i [
    | inl e ↦ inl (inl e)
    | inr j ↦ elim (In-replace_first p v xs x q (ground arith) j) [
      | inl k ↦ inl (inr k)
      | inr (e, k) ↦ inr (e, inr k)
    ]
  ])
]

-- A change that keeps the comment's identity, card and parent.
abbrev pub SamePlace : Comment → Comment → Type 0
SamePlace x v =
    (v.id ≡ x.id) × (v.card_id ≡ x.card_id) × (v.parent_comment_id ≡ x.parent_comment_id)

HasRoot-replace_first :
    (p : Comment → Bool) (v : Comment) (xs : List Comment) (x c : Comment)
    → find p xs ≡ some x
    → SamePlace x v
    → HasRoot xs c
    → HasRoot (replace_first p v xs) c
HasRoot-replace_first p v xs x c f (a, b, d) h r e =
    let (q, (i, k, l, m)) = h r e in
    elim (In-replace_first p v xs x q f i) [
      | inl j ↦ (q, (j, k, l, m))
      | inr (s, j) ↦ (
        v,
        (
          j,
          cc (a, k, ap (λ (c : Comment). c.id) s),
          cc (b, l, ap (λ (c : Comment). c.card_id) s),
          cc (d, m, ap (λ (c : Comment). c.parent_comment_id) s),
        ),
      )
    ]

pub replace_first-IsThreaded :
    (p : Comment → Bool) (v : Comment) (xs : List Comment) (x : Comment)
    → find p xs ≡ some x
    → SamePlace x v
    → IsThreaded xs
    → IsThreaded (replace_first p v xs)
replace_first-IsThreaded p v xs x f (a, b, d) threads =
    let kept : All (HasRoot (replace_first p v xs)) xs =
      All-imp _ _ xs (λ c h. HasRoot-replace_first p v xs x c f (a, b, d) h) threads in
    All-replace_first _ p v xs kept λ r e.
      let (q, (i, k, l, m)) = All-In _ xs x kept (In-of_find p xs x f) r (cc (d, e)) in
      (q, (i, k, cc (b, l), m))
