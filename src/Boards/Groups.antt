-- ===== src/Boards/Groups.antt =====
-- packages/core/src/services/board-service.ts: the boards that a removal leaves, and the names of groups.
use ai_kanban.Prelude.{
  ◌≤◌, ◌<◌, Bool, false, not, ◌&&◌, Option, none, some, List, [], ◌∷◌, ◌++◌, find_passes, any-none,
  length, ◌≡◌, arith, In, In-filter, In-replace_first, length-filter-le_replace_first, All, All-imp,
  All-zip, nat_eq, string_eq, option_eq, ◌==◌, ◌!=◌, is_some, beq_sym, replace_first, Pairwise,
  Pairwise-append_one, Pairwise-replace_first, String,
}
use ai_kanban.Domain.Vocabulary.{Uuid}
use ai_kanban.Domain.Entities.{Actor, Board, Group}
use ai_kanban.Domain.Commands.{GroupInput}
use ai_kanban.Domain.Errors.{ok, with_ok, with_some}
use ai_kanban.Db.State.{DbState, World, Deps}
use ai_kanban.Db.Tx.{run}
use ai_kanban.Db.Rows.{
  list_boards, update_board, find_board, find_group, list_groups, insert_group, update_group,
}
use ai_kanban.Services.Access.{can_access_board, require_board_access}
use ai_kanban.Services.Board.{remove_board, remove_board_tx}
use ai_kanban.Services.Group.{
  save_group, save_group_tx, write_group, existing_group, name_taken, lock_administration,
}

remove_board_tx-run :
    (deps : Deps) (actor : Actor) (board_id : Uuid) (w w' : World)
    → remove_board_tx deps actor board_id w ≡ (ok tt, w')
    → (board : Board) × (require_board_access actor board_id w.db ≡ ok board)
      × (1 < length (list_boards w.db))
      × (w'.db.boards
          ≡ replace_first
              (λ b. b.id == board.id)
              (record board { archived_at = some (deps.now w.clock_calls) })
              w.db.boards)
unfolding remove_board_tx update_board
remove_board_tx-run deps actor board_id w w' h =
    with_ok (require_board_access actor board_id w.db) (λ e q. ground arith)
      λ board f. (board, f, ground arith, ground arith)

remove_board-run :
    (deps : Deps) (actor : Actor) (board_id : Uuid) (w w' : World)
    → remove_board deps actor board_id w ≡ (ok tt, w')
    → (w1 : World) × (remove_board_tx deps actor board_id w ≡ (ok tt, w1)) × (w'.db ≡ w1.db)
unfolding remove_board run
remove_board-run deps actor board_id w w' h =
    with_ok (remove_board_tx deps actor board_id w).0 (λ e q. ground arith)
      λ u q. ((remove_board_tx deps actor board_id w).1, ground arith, ground arith)

require_board_access-id :
    (actor : Actor) (board_id : Uuid) (db : DbState) (board : Board)
    → require_board_access actor board_id db ≡ ok board
    → board.id ≡ board_id
unfolding require_board_access find_board
require_board_access-id actor board_id db board h =
    with_some (find_board board_id db) (λ e. ground arith)
      λ b f.
        with_ok (can_access_board db actor b) (λ e q. ground arith)
          λ v q. ground (arith, find_passes (λ b. b.id == board_id) db.boards b f)

-- A removal of a board that succeeds leaves at least one board in use, and every other board that
-- was in use as it was.
pub remove_board-In :
    (deps : Deps) (actor : Actor) (board_id : Uuid) (w w' : World)
    → remove_board deps actor board_id w ≡ (ok tt, w')
    → (1 ≤ length (list_boards w'.db))
      × ((b : Board)
          → In b (list_boards w.db)
          → (b.id == board_id) ≡ false
          → In b (list_boards w'.db))
unfolding list_boards
remove_board-In deps actor board_id w w' h =
    let (w1, tx, same) = remove_board-run deps actor board_id w w' h in
    let (board, f, many, rows) = remove_board_tx-run deps actor board_id w w1 tx in
    let v : Board = record board { archived_at = some (deps.now w.clock_calls) } in
    let live = λ (b : Board). not (is_some b.archived_at) in
    let at = require_board_access-id actor board_id w.db board f in
    (
      rw (same, rows)
          (omega (
            arith,
            many,
            length-filter-le_replace_first live (λ b. b.id == board.id) v w.db.boards,
          )),
      λ b i other.
          let (j, l) = (In-filter live w.db.boards b).0 i in
          rw (same, rows)
            ((In-filter live _ b).1
              (In-replace_first (λ b. b.id == board.id) v w.db.boards b (rw at other) j, l)),
    )

-- No two groups have one id, nor one name, whatever its case.
abbrev pub HasDistinctNames : Deps → List Group → Type 0
HasDistinctNames deps groups =
    Pairwise
      (λ (g h : Group).
        ((deps.to_lower_case g.name == deps.to_lower_case h.name) ≡ false)
        × ((g.id == h.id) ≡ false))
      groups

save_group_tx-run :
    (deps : Deps) (actor : Actor) (group_id : Option Uuid) (input : GroupInput) (w w' : World)
    (group : Group)
    → save_group_tx deps actor group_id input w ≡ (ok group, w')
    → (existing : Option Group) × (existing_group group_id w.db ≡ ok existing)
      × (name_taken deps group_id input.name w.db ≡ false)
      × (write_group deps input existing w ≡ (ok group, w'))
unfolding save_group_tx
save_group_tx-run deps actor group_id input w w' group h =
    with_ok (lock_administration actor w.db) (λ e q. ground arith)
      λ u l.
        with_ok (existing_group group_id w.db) (λ e q. ground arith)
          λ existing f. (existing, f, ground arith, ground arith)

save_group-run :
    (deps : Deps) (actor : Actor) (group_id : Option Uuid) (input : GroupInput) (w w' : World)
    (group : Group)
    → save_group deps actor group_id input w ≡ (ok group, w')
    → (w1 : World) × (save_group_tx deps actor group_id input w ≡ (ok group, w1)) × (w'.db ≡ w1.db)
unfolding save_group run
save_group-run deps actor group_id input w w' group h =
    with_ok (save_group_tx deps actor group_id input w).0 (λ e q. ground arith)
      λ u q. ((save_group_tx deps actor group_id input w).1, ground arith, ground arith)

-- The test of `name_taken` on one group.
abbrev clashes : Deps → Option Uuid → String → Group → Bool
clashes deps group_id name item =
    some item.id != group_id && deps.to_lower_case item.name == deps.to_lower_case name

inserted-HasDistinctNames :
    (deps : Deps) (input : GroupInput) (w w' : World) (group : Group)
    → HasDistinctNames deps w.db.groups
    → All (λ (g : Group). (g.id == deps.new_id w.id_calls) ≡ false) w.db.groups
    → name_taken deps none input.name w.db ≡ false
    → write_group deps input none w ≡ (ok group, w')
    → HasDistinctNames deps w'.db.groups
unfolding name_taken list_groups insert_group
inserted-HasDistinctNames deps input w w' group names fresh free h =
    let rows : w'.db.groups ≡ w.db.groups ++ group ∷ [] = ground arith in
    let name : group.name ≡ input.name = ground arith in
    let id : group.id ≡ deps.new_id w.id_calls = ground arith in
    rw rows (
      Pairwise-append_one _ w.db.groups group names (
        All-zip (λ g. clashes deps none input.name g ≡ false) _ _ w.db.groups
          (λ g p q. (rw name (ground arith), rw id q))
          (any-none (clashes deps none input.name) w.db.groups free) fresh))

updated-HasDistinctNames :
    (deps : Deps) (input : GroupInput) (gid : Uuid) (existing : Group) (w w' : World)
    (group : Group)
    → HasDistinctNames deps w.db.groups
    → existing.id ≡ gid
    → name_taken deps (some gid) input.name w.db ≡ false
    → write_group deps input (some existing) w ≡ (ok group, w')
    → HasDistinctNames deps w'.db.groups
unfolding name_taken list_groups update_group
updated-HasDistinctNames deps input gid existing w w' group names at free h =
    let rows : w'.db.groups ≡ replace_first (λ g. g.id == group.id) group w.db.groups =
      ground arith in
    let name : group.name ≡ input.name = ground arith in
    let id : group.id ≡ gid = ground arith in
    rw rows (
      Pairwise-replace_first _ (λ g. g.id == group.id) group w.db.groups
        (λ x y (n, d) t.
          let e : x.id ≡ group.id = (nat_eq.equal_iff x.id group.id).0 t in
          beq_sym group.id y.id (rw⁻¹ e d))
        names
        (All-imp (λ g. clashes deps (some gid) input.name g ≡ false) _ w.db.groups
          (λ g p q.
            let apart : (deps.to_lower_case g.name == deps.to_lower_case group.name) ≡ false =
              rw name (ground (arith, nat_eq.equal_iff g.id group.id, id)) in
            (
              (apart, q),
              (
                beq_sym (deps.to_lower_case g.name) (deps.to_lower_case group.name) apart,
                beq_sym g.id group.id q,
              ),
            ))
          (any-none (clashes deps (some gid) input.name) w.db.groups free)))

-- A group that is saved, under an id that is free where it is new, keeps the names of groups
-- distinct, whatever their case.
pub save_group-HasDistinctNames :
    (deps : Deps) (actor : Actor) (group_id : Option Uuid) (input : GroupInput) (w w' : World)
    (group : Group)
    → HasDistinctNames deps w.db.groups
    → All (λ (g : Group). (g.id == deps.new_id w.id_calls) ≡ false) w.db.groups
    → save_group deps actor group_id input w ≡ (ok group, w')
    → HasDistinctNames deps w'.db.groups
unfolding find_group
save_group-HasDistinctNames deps actor none input w w' group names fresh h =
    let (w1, tx, same) = save_group-run deps actor none input w w' group h in
    let (existing, f, free, write) = save_group_tx-run deps actor none input w w1 group tx in
    let new : existing ≡ none = ground arith in
    rw same (inserted-HasDistinctNames deps input w w1 group names fresh free (cc (new, write)))
save_group-HasDistinctNames deps actor (some gid) input w w' group names fresh h =
    let (w1, tx, same) = save_group-run deps actor (some gid) input w w' group h in
    let (existing, f, free, write) = save_group_tx-run deps actor (some gid) input w w1 group tx in
    with_some (find_group gid w.db) (λ e. ground arith)
      λ g q.
        let old : existing ≡ some g = ground arith in
        let at : g.id ≡ gid =
          (nat_eq.equal_iff g.id gid).0 (find_passes (λ g. g.id == gid) w.db.groups g q) in
        rw same
          (updated-HasDistinctNames deps input gid g w w1 group names at free (cc (old, write)))
