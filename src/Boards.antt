-- ===== src/Boards.antt =====
-- packages/core/src/services/board-service.ts: what the catalog shows, and the boards and groups that
-- administration leaves.
pub mod Groups
use ai_kanban.Prelude.{
  ℕ, ◌+◌, ◌≤◌, ◌<◌, Bool, true, false, not, ◌&&◌, ◌||◌, Option, none, some, List, [], ◌∷◌, ◌++◌,
  map, filter, find, find_passes, find-none, any, includes, includes_iff, head?, length, leb,
  All-imp, All-map, All-distinct_from, All-filter, find-All, ◌≡◌, ◌⊎◌, ◌↔◌, inl, inr, refl, sym,
  subst, ap, ◌∙◌, arith, In, In-of_find, In-filter, All, All-In, filter-All, nat_eq, ◌==◌, is_some,
  if◌then◌else◌, option_map, Bool-cases, Option-cases, replace_first,
}
use ai_kanban.Domain.Vocabulary.{Uuid, Permission, DefaultScope, default_scope_eq}
use ai_kanban.Domain.Entities.{Actor, Board, BoardDefault}
use ai_kanban.Domain.Errors.{DomainError, Result, ok, err, with_ok, with_some, Result-cases}
use ai_kanban.Policy.Engine.{has_permission}
use ai_kanban.Db.State.{DbState, World, Deps}
use ai_kanban.Db.Tx.{run}
use ai_kanban.Db.Rows.{list_boards, list_defaults, update_board, find_board}
use ai_kanban.Services.Access.{can_access_board, global_policy, require_board_access}
use ai_kanban.Services.Catalog.{
  BoardCatalog, DefaultSource, is_user, shown, catalog_items, catalog, choose, chosen_default,
  allowed_defaults, group_boards, default_of, chosen_id, only, catalog_of,
}
use ai_kanban.Services.Board.{remove_board, remove_board_tx}
use ai_kanban.Transactions.{run-ok}

-- A board of the list that the actor can see.
abbrev pub IsVisible : DbState → Actor → List Board → Uuid → Type 0
IsVisible db actor boards id =
    (board : Board) × In board boards
    × (board.id ≡ id)
    × (can_access_board db actor board ≡ ok true)

abbrev pub board_ids : List Board → List Uuid
board_ids boards = map (λ (board : Board). board.id) boards

shown-id : (can_manage : Bool) (board : Board) → (shown can_manage board).id ≡ board.id
shown-id true board = refl
shown-id false board = refl

catalog_items_iff :
    (db : DbState) (actor : Actor) (can_manage : Bool) (boards items : List Board)
    → catalog_items db actor can_manage boards ≡ ok items
    → (id : Uuid) → In id (board_ids items) ↔ IsVisible db actor boards id
unfolding catalog_items
catalog_items_iff db actor can_manage [] items h id =
    let e : items ≡ [] = ground arith in
    (λ i. absurd (subst (λ xs. In id (board_ids xs)) e i), λ (board, i, same, c). absurd i)
catalog_items_iff db actor can_manage (b ∷ boards) items h id =
    with_ok (can_access_board db actor b) (λ e q. ground arith)
      λ visible c.
        with_ok (catalog_items db actor can_manage boards) (λ e q. ground arith)
          λ rest r.
            let ih = catalog_items_iff db actor can_manage boards rest r id in
            elim (Bool-cases visible) [
              | inl t ↦
                  let e : items ≡ shown can_manage b ∷ rest = ground arith in
                  rw e (
                    λ i. elim i [
                      | inl same ↦ (b, inl refl, sym (same ∙ shown-id can_manage b), cc (c, t))
                      | inr j ↦ let (board, k, s, v) = ih.0 j in (board, inr k, s, v)
                    ],
                    λ (board, i, s, v). elim i [
                      | inl same ↦
                          inl (cc (s, shown-id can_manage b, ap (λ (x : Board). x.id) same))
                      | inr k ↦ inr (ih.1 (board, k, s, v))
                    ],
                  )
              | inr f ↦
                  let e : items ≡ rest = ground arith in
                  rw e (
                    λ i. let (board, k, s, v) = ih.0 i in (board, inr k, s, v),
                    λ (board, i, s, v). elim i [
                      | inl same ↦ absurd (cc (v, c, f, ap (can_access_board db actor) same))
                      | inr k ↦ ih.1 (board, k, s, v)
                    ],
                  )
            ]

-- Rows whose board is one of the ids.
abbrev ForBoards : List Uuid → List BoardDefault → Type 0
ForBoards ids rows = All (λ (row : BoardDefault). In row.board_id ids) rows

allowed_defaults-ForBoards :
    (items : List Board) (rows : List BoardDefault)
    → ForBoards (board_ids items) (allowed_defaults items rows)
allowed_defaults-ForBoards items rows =
    All-imp _ _ (allowed_defaults items rows)
      (λ row h. (includes_iff (board_ids items) row.board_id).0 h)
      (filter-All (λ row. includes (board_ids items) row.board_id) rows)

default_of-ForBoards :
    (ids : List Uuid) (p : BoardDefault → Bool) (rows : List BoardDefault) (id : Uuid)
    → ForBoards ids rows
    → default_of p rows ≡ some id
    → In id ids
default_of-ForBoards ids p rows id h e =
    with_some (find p rows) (λ q. ground arith)
      λ row q.
        let (i, t) = find-All _ p rows row h q in
        let same : row.board_id ≡ id = ground arith in rw (← same) i

only-All : (P : Uuid → Type 0) (xs : List Uuid) (id : Uuid) → All P xs → only xs ≡ some id → P id
only-All P [] id h e = cc
only-All P (x ∷ []) id (p, h) e = let same : x ≡ id = ground arith in rw (← same) p
only-All P (x ∷ y ∷ xs) id h e = cc

group_boards-All :
    (ids : List Uuid) (db : DbState) (actor : Actor) (rows : List BoardDefault)
    → ForBoards ids rows
    → All (λ id. In id ids) (group_boards db actor rows)
unfolding group_boards
group_boards-All ids db actor rows h = elim (Bool-cases (is_user actor)) [
  | inl t ↦ rw t (
      All-distinct_from _ [] _
        (All-map _ (λ (row : BoardDefault). row.board_id) _ (All-filter _ _ rows h)))
  | inr f ↦ rw f tt
]

choose-In :
    (ids : List Uuid) (a b c d : Option Uuid) (s : DefaultSource) (id : Uuid)
    → ((x : Uuid) → a ≡ some x → In x ids)
    → ((x : Uuid) → b ≡ some x → In x ids)
    → ((x : Uuid) → c ≡ some x → In x ids)
    → ((x : Uuid) → d ≡ some x → In x ids)
    → choose a b c d ≡ some (s, id)
    → In id ids
choose-In ids (some x) b c d s id p q r t e =
    let same : x ≡ id = ground arith in rw (← same) (p x refl)
choose-In ids none (some x) c d s id p q r t e =
    let same : x ≡ id = ground arith in rw (← same) (q x refl)
choose-In ids none none (some x) d s id p q r t e =
    let same : x ≡ id = ground arith in rw (← same) (r x refl)
choose-In ids none none none (some x) s id p q r t e =
    let same : x ≡ id = ground arith in rw (← same) (t x refl)
choose-In ids none none none none s id p q r t e = absurd (ground arith)

chosen_id-In :
    (items : List Board) (choice : Option (DefaultSource × Uuid)) (id : Uuid)
    → ((s : DefaultSource) (x : Uuid) → choice ≡ some (s, x) → In x (board_ids items))
    → chosen_id choice items ≡ some id
    → In id (board_ids items)
chosen_id-In items (some (s, x)) id h e =
    let same : x ≡ id = ground arith in rw (← same) (h s x refl)
chosen_id-In [] none id h e = absurd (ground arith)
chosen_id-In (b ∷ items) none id h e = inl (ground arith)

chosen_id-none :
    (items : List Board) (choice : Option (DefaultSource × Uuid))
    → chosen_id choice items ≡ none
    → items ≡ []
chosen_id-none items (some (s, x)) e = absurd (ground arith)
chosen_id-none [] none e = refl
chosen_id-none (b ∷ items) none e = absurd (ground arith)

chosen_default-In :
    (db : DbState) (actor : Actor) (ids : List Uuid) (rows : List BoardDefault) (s : DefaultSource)
    (id : Uuid)
    → ForBoards ids rows
    → chosen_default db actor rows ≡ some (s, id)
    → In id ids
unfolding chosen_default
chosen_default-In db actor ids rows s id h e =
    choose-In ids _ _ _ _ s id (λ x q. default_of-ForBoards ids _ rows x h q)
      (λ x q. only-All (λ id. In id ids) _ x (group_boards-All ids db actor rows h) q)
      (λ x q. default_of-ForBoards ids _ rows x h q) (λ x q. default_of-ForBoards ids _ rows x h q)
      e

-- The catalog lists exactly the boards in use that the actor can see; the default board is one of
-- them, whoever assigned it, and is missing only where the catalog is empty.
pub catalog-IsVisible :
    (actor : Actor) (db : DbState) (c : BoardCatalog)
    → catalog actor db ≡ ok c
    → ((id : Uuid) → In id (board_ids c.items) ↔ IsVisible db actor (list_boards db) id)
      × ((id : Uuid) → c.default_board_id ≡ some id → In id (board_ids c.items))
      × (c.default_board_id ≡ none → c.items ≡ [])
unfolding catalog
catalog-IsVisible actor db c h =
    with_ok (global_policy db) (λ e q. ground arith)
      λ policy p.
        let manage = has_permission actor Permission.manage_policy policy in
        with_ok (catalog_items db actor manage (list_boards db)) (λ e q. ground arith)
          λ items i.
            let rows =
              allowed_defaults items
                (list_defaults (if is_user actor then some actor.id else none) db) in
            let same : c ≡ catalog_of db actor manage items rows = ground arith in
            rw same (
              catalog_items_iff db actor manage (list_boards db) items i,
              λ id e.
                  chosen_id-In items (chosen_default db actor rows) id
                    (λ s x q.
                      chosen_default-In db actor (board_ids items) rows s x
                        (allowed_defaults-ForBoards items _) q)
                    e,
              λ e. chosen_id-none items (chosen_default db actor rows) e,
            )
