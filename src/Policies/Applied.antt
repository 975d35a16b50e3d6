-- ===== src/Policies/Applied.antt =====
-- packages/core/src/services/policy-service.ts: a policy version that was applied, as it is read.
use ai_kanban.Prelude.{
  beq_sym, All-filter, filter-append, append-nil, ◌∙◌, ◌≤◌, Bool, true, false, some, List, [], ◌∷◌,
  ◌++◌, ◌≡◌, inl, inr, refl, arith, All, All-append, All-imp, filter, nat_eq, string_eq, ◌==◌,
  get_last?-sort_by_append, ap,
}
use ai_kanban.Domain.Vocabulary.{Uuid, Permission, permission_eq}
use ai_kanban.Domain.Entities.{Actor, Board}
use ai_kanban.Domain.Policy.{PolicyDocument, BoardPolicy, RoleDefinition}
use ai_kanban.Domain.Errors.{ok, with_ok, with_some}
use ai_kanban.Db.State.{DbState, World, Deps}
use ai_kanban.Db.Tx.{run, read}
use ai_kanban.Db.Rows.{get_default_board, get_active_policy}
use ai_kanban.Services.Access.{global_policy, require_board_access}
use ai_kanban.Services.PolicyService.{
  role_keys, ensure_no_orphaned_role, same_roles, same_list, insert_version, merged, apply_tx,
  apply, get_active, get_active_version,
}
use ai_kanban.Policies.{
  IsStaffed, ensure_no_orphaned_role-IsStaffed, IsRetiring, retire_reasons-IsRetiring,
  insert_version-run,
}

apply_tx-run :
    (deps : Deps) (actor : Actor) (config : PolicyDocument) (w w' : World) (version : BoardPolicy)
    → apply_tx deps actor config w ≡ (ok version, w')
    → (authority : Board) × (global current : BoardPolicy) × (get_default_board w.db
        ≡ some authority)
      × (get_active_policy authority.id w.db ≡ some global)
      × (get_active_policy deps.board_id w.db ≡ some current)
      × (ensure_no_orphaned_role (role_keys config) w.db ≡ ok tt)
      × (insert_version deps actor authority.id global.config (merged current.config config) w
          ≡ (ok version, w'))
unfolding apply_tx
apply_tx-run deps actor config w w' version h =
    with_some (get_default_board w.db) (λ e. ground arith)
      λ authority a.
        with_some (get_active_policy authority.id w.db) (λ e. ground arith)
          λ global g.
            with_some (get_active_policy deps.board_id w.db) (λ e. ground arith)
              λ current c.
                with_ok (require_board_access actor deps.board_id w.db) (λ e q. ground arith)
                  λ board b. (authority, global, current, a, g, c, ground arith, ground arith)

apply-run :
    (deps : Deps) (actor : Actor) (config : PolicyDocument) (w w' : World) (version : BoardPolicy)
    → apply deps actor config w ≡ (ok version, w')
    → (w1 : World) × (apply_tx deps actor config w ≡ (ok version, w1)) × (w'.db ≡ w1.db)
unfolding apply run
apply-run deps actor config w w' version h =
    with_ok (apply_tx deps actor config w).0 (λ e q. ground arith)
      λ v q. ((apply_tx deps actor config w).1, ground arith, ground arith)

-- A policy that is applied names the role of every active user, live token and listed board; it
-- still defines every waiting reason of the board's policy before, and offers of those only the ones
-- that the new document defines itself.
pub apply-IsStaffed :
    (deps : Deps) (actor : Actor) (config : PolicyDocument) (w w' : World) (version : BoardPolicy)
    → apply deps actor config w ≡ (ok version, w')
    → IsStaffed (role_keys version.config) w'.db
      × ((current : BoardPolicy) × (get_active_policy deps.board_id w.db ≡ some current)
          × IsRetiring current.config.waiting_reasons config.waiting_reasons
              version.config.waiting_reasons)
apply-IsStaffed deps actor config w w' version h =
    let (w1, tx, same) = apply-run deps actor config w w' version h in
    let (authority, global, current, a, g, c, staffed, run) =
      apply_tx-run deps actor config w w1 version tx in
    let ((b, conf, by, at), users, tokens, boards, rows) =
      insert_version-run deps actor authority.id global.config (merged current.config config) w w1
        version run in
    (
      rw (conf, same, users, tokens, boards)
          (ensure_no_orphaned_role-IsStaffed (role_keys config) w.db staffed),
      (
        current,
        c,
        rw conf (retire_reasons-IsRetiring current.config.waiting_reasons config.waiting_reasons),
      ),
    )

abbrev on_board : Uuid → BoardPolicy → Bool
on_board board_id p = p.board_id == board_id

-- A version no older than the others is the active one of its board.
active_own :
    (v : BoardPolicy) (db : DbState) (ps : List BoardPolicy)
    → db.policies ≡ ps ++ v ∷ []
    → All (λ (p : BoardPolicy). p.created_at ≤ v.created_at) ps
    → get_active_policy v.board_id db ≡ some v
unfolding get_active_policy
active_own v db ps rows old =
    let kept : filter (on_board v.board_id) (ps ++ v ∷ [])
        ≡ filter (on_board v.board_id) ps ++ v ∷ [] =
      filter-append (on_board v.board_id) ps (v ∷ [])
      ∙ ap (λ xs. filter (on_board v.board_id) ps ++ xs)
          (ground (arith, (nat_eq.equal_iff v.board_id v.board_id).1 refl)) in
    rw (rows, kept)
      (get_last?-sort_by_append _ (filter (on_board v.board_id) ps) v
        (All-filter _ (on_board v.board_id) ps (All-imp _ _ ps (λ p h. ground arith) old)))

active_other :
    (v : BoardPolicy) (board_id : Uuid) (db db' : DbState)
    → db'.policies ≡ db.policies ++ v ∷ []
    → (v.board_id == board_id) ≡ false
    → get_active_policy board_id db' ≡ get_active_policy board_id db
unfolding get_active_policy
active_other v board_id db db' rows other =
    let kept : filter (on_board board_id) (db.policies ++ v ∷ [])
        ≡ filter (on_board board_id) db.policies =
      filter-append (on_board board_id) db.policies (v ∷ [])
      ∙ ap (λ xs. filter (on_board board_id) db.policies ++ xs) (ground arith)
      ∙ append-nil (filter (on_board board_id) db.policies) in
    rw (rows, kept) refl

same_permissions-eq : (xs ys : List Permission) → same_list xs ys ≡ true → xs ≡ ys
same_permissions-eq [] [] h = refl
same_permissions-eq (a ∷ xs) [] h = cc
same_permissions-eq [] (b ∷ ys) h = cc
same_permissions-eq (a ∷ xs) (b ∷ ys) h =
    ground (arith, same_permissions-eq xs ys, (permission_eq.equal_iff a b).0)

same_roles-eq : (xs ys : List RoleDefinition) → same_roles xs ys ≡ true → xs ≡ ys
unfolding same_roles
same_roles-eq [] [] h = refl
same_roles-eq (a ∷ xs) [] h = cc
same_roles-eq [] (b ∷ ys) h = cc
same_roles-eq (a ∷ xs) (b ∷ ys) h =
    let p : a.permissions ≡ b.permissions =
      same_permissions-eq a.permissions b.permissions (ground arith) in
    let r : xs ≡ ys = same_roles-eq xs ys (ground arith) in
    ground (arith, (string_eq.equal_iff a.key b.key).0, (string_eq.equal_iff a.name b.name).0)

-- The active version of the service's board, and the roles of the initial board's.
active_read :
    (deps : Deps) (authority : Board) (own global : BoardPolicy) (w : World)
    → get_default_board w.db ≡ some authority
    → get_active_policy deps.board_id w.db ≡ some own
    → get_active_policy authority.id w.db ≡ some global
    → global.config.roles ≡ own.config.roles
    → (get_active deps w).0 ≡ ok own
unfolding get_active get_active_version global_policy read
active_read deps authority own global w a o g r = ground arith

-- A policy that is applied, when no stored version is newer than the clock, is what a read of the
-- active policy returns.
pub get_active-apply :
    (deps : Deps) (actor : Actor) (config : PolicyDocument) (w w' : World) (version : BoardPolicy)
    → All (λ (p : BoardPolicy). p.created_at ≤ deps.now w.clock_calls) w.db.policies
    → apply deps actor config w ≡ (ok version, w')
    → (get_active deps w').0 ≡ ok version
unfolding get_default_board
get_active-apply deps actor config w w' version old h =
    let (w1, tx, same) = apply-run deps actor config w w' version h in
    let (authority, global, current, a, g, c, staffed, run) =
      apply_tx-run deps actor config w w1 version tx in
    let ((b, conf, by, at), users, tokens, boards, rows) =
      insert_version-run deps actor authority.id global.config (merged current.config config) w w1
        version run in
    let older : All (λ (p : BoardPolicy). p.created_at ≤ version.created_at) w.db.policies =
      rw at old in
    let initial : get_default_board w'.db ≡ some authority = rw (same, boards) a in
    elim rows [
      | inl (one, stored) ↦
          let active : get_active_policy deps.board_id w'.db ≡ some version =
            rw⁻¹ b (active_own version w'.db w.db.policies (rw same stored) older) in
          elim one [
            | inl own ↦
                active_read deps authority version version w' initial active (rw own active) refl
            | inr (other, roles) ↦
                let apart : (version.board_id == authority.id) ≡ false =
                  rw b (beq_sym authority.id deps.board_id other) in
                let kept : get_active_policy authority.id w'.db ≡ some global =
                  active_other version authority.id w.db w'.db (rw same stored) apart ∙ g in
                active_read deps authority version global w' initial active kept
                  (rw conf (same_roles-eq global.config.roles config.roles roles))
          ]
      | inr (row, other, (on, doc, when), stored) ↦
          let middle : DbState = record (w.db) { policies = w.db.policies ++ version ∷ [] } in
          let apart : (row.board_id == deps.board_id) ≡ false = rw on other in
          let active : get_active_policy deps.board_id w'.db ≡ some version =
            active_other row deps.board_id middle w'.db (rw same stored) apart
            ∙ rw⁻¹ b (active_own version middle w.db.policies refl older) in
          let latest : All (λ (p : BoardPolicy). p.created_at ≤ row.created_at) middle.policies =
            rw when (All-append _ w.db.policies (version ∷ []) older (omega arith, tt)) in
          let follows : get_active_policy authority.id w'.db ≡ some row =
            rw⁻¹ on (active_own row w'.db middle.policies (rw same stored) latest) in
          active_read deps authority version row w' initial active follows (rw doc refl)
    ]
