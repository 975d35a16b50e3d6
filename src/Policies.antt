-- ===== src/Policies.antt =====
-- packages/core/src/services/policy-service.ts: what a policy version that is applied promises.
pub mod Applied
use ai_kanban.Prelude.{
  ℕ, ◌≤◌, Bool, true, false, not, ◌&&◌, none, some, List, [], ◌∷◌, ◌++◌, ◌≡◌, ◌⊎◌, inl, inr, refl,
  arith, map, All, All-append, All-imp, any, any-none, any-append, includes, filter, find, is_some,
  nat_eq, string_eq, ◌==◌, ◌!=◌, Bool-cases, Option-cases, sort_by, find-sort_by-none,
  get_last?-sort_by_append, ltb, ap, ◌+◌, String, ◌||◌,
}
use ai_kanban.Domain.Vocabulary.{Uuid, Role}
use ai_kanban.Domain.Entities.{Actor, Board, User, ServiceToken}
use ai_kanban.Domain.Policy.{PolicyDocument, BoardPolicy, RoleDefinition, WaitingReasonDefinition}
use ai_kanban.Domain.Errors.{
  DomainError, Result, ok, err, with_ok, with_some, Result-cases, ok-cancel,
}
use ai_kanban.Db.State.{DbState, World, Deps}
use ai_kanban.Db.Tx.{Tx, run, for_each}
use ai_kanban.Db.Rows.{
  get_default_board, get_active_policy, list_boards, list_service_tokens, insert_policy,
  set_default,
}
use ai_kanban.Services.Access.{global_policy, require_board_access}
use ai_kanban.Services.PolicyService.{
  has_reason, retired, retire_reasons, role_keys, user_is_orphaned, token_is_orphaned,
  board_is_orphaned, ensure_no_orphaned_role, clear_default, same_roles, update_authority,
  insert_version, merged, apply_tx, apply, get_active, get_active_version,
}
use ai_kanban.Transactions.{run-ok}

-- Every role that an active user, a live token or a listed board names is one of the keys.
abbrev pub IsStaffed : List Role → DbState → Type 0
IsStaffed keys db =
    All (λ (user : User). user.is_active ≡ true → includes keys user.role ≡ true) db.users
    × All (λ (token : ServiceToken). token.revoked_at ≡ none → includes keys token.role ≡ true)
        db.service_tokens
    × All
        (λ (board : Board).
          board.archived_at ≡ none → All (λ key. includes keys key ≡ true) board.allowed_role_keys)
        db.boards

any-included :
    (keys roles : List Role)
    → any (λ key. not (includes keys key)) roles ≡ false
    → All (λ key. includes keys key ≡ true) roles
any-included keys [] h = tt
any-included keys (r ∷ roles) h = (ground arith, any-included keys roles (ground arith))

filtered_none :
    (keys : List Role) (boards : List Board)
    → any (board_is_orphaned keys) (filter (λ b. not (is_some b.archived_at)) boards) ≡ false
    → All
        (λ (board : Board).
          board.archived_at ≡ none → All (λ key. includes keys key ≡ true) board.allowed_role_keys)
        boards
filtered_none keys [] h = tt
filtered_none keys (b ∷ boards) h = elim (Option-cases b.archived_at) [
  | inl live ↦ (
    λ _. any-included keys b.allowed_role_keys (ground arith),
    filtered_none keys boards (ground arith),
  )
  | inr (at, gone) ↦ (λ p. absurd (ground arith), filtered_none keys boards (ground arith))
]

All-find-none :
    {A : Type 0} (p : A → Bool) (xs : List A) → find p xs ≡ none → All (λ x. p x ≡ false) xs
All-find-none p [] h = tt
All-find-none p (x ∷ xs) h = (ground arith, All-find-none p xs (ground arith))

ensure_no_orphaned_role-IsStaffed :
    (keys : List Role) (db : DbState) → ensure_no_orphaned_role keys db ≡ ok tt → IsStaffed keys db
unfolding ensure_no_orphaned_role list_boards list_service_tokens
ensure_no_orphaned_role-IsStaffed keys db h =
    let users : find (user_is_orphaned keys) db.users ≡ none =
      elim (Option-cases (find (user_is_orphaned keys) db.users)) [
        | inl e ↦ e
        | inr (u, e) ↦ absurd (ground arith)
      ] in
    let tokens : find (token_is_orphaned keys) (list_service_tokens db) ≡ none =
      elim (Option-cases (find (token_is_orphaned keys) (list_service_tokens db))) [
        | inl e ↦ e
        | inr (t, e) ↦ absurd (ground arith)
      ] in
    (
      All-imp _ _ db.users (λ u p q. ground arith)
          (All-find-none (user_is_orphaned keys) db.users users),
      All-imp _ _ db.service_tokens (λ t p q. ground arith)
          (find-sort_by-none _ (token_is_orphaned keys) db.service_tokens tokens),
      filtered_none keys db.boards (ground arith),
    )

-- Each reason that was known still is, and one that the document leaves out is not offered.
abbrev pub IsRetiring :
    List WaitingReasonDefinition
    → List WaitingReasonDefinition
    → List WaitingReasonDefinition
    → Type 0
IsRetiring current kept stored =
    All (λ (r : WaitingReasonDefinition). has_reason stored r.key ≡ true) current
    × All
        (λ (r : WaitingReasonDefinition).
          has_reason kept r.key ≡ false → (r.active ≡ false) × (has_reason current r.key ≡ true))
        stored

retired-known :
    (kept current : List WaitingReasonDefinition) (key : String)
    → has_reason current key ≡ true
    → (has_reason kept key
        || has_reason (map retired (filter (λ r. not (has_reason kept r.key)) current)) key)
      ≡ true
retired-known kept [] key h = cc
retired-known kept (r ∷ current) key h = elim (Bool-cases (r.key == key)) [
  | inl t ↦
      let same : r.key ≡ key = (string_eq.equal_iff r.key key).0 t in
      let k : has_reason kept r.key ≡ has_reason kept key = ap (has_reason kept) same in
      ground arith
  | inr f ↦ ground (arith, retired-known kept current key)
]

has_reason-own :
    (current : List WaitingReasonDefinition) → All (λ r. has_reason current r.key ≡ true) current
has_reason-own [] = tt
has_reason-own (r ∷ current) = (
  ground (arith, (string_eq.equal_iff r.key r.key).1 refl),
  All-imp _ _ current (λ s h. ground arith) (has_reason-own current),
)

kept-own :
    (kept current xs : List WaitingReasonDefinition)
    → All (λ r. has_reason kept r.key ≡ true) xs
    → All
        (λ r.
          has_reason kept r.key ≡ false → (r.active ≡ false) × (has_reason current r.key ≡ true))
        xs
kept-own kept current xs h = All-imp _ _ xs (λ r p q. absurd (cc (p, q))) h

retired-off :
    (kept current xs : List WaitingReasonDefinition)
    → All (λ r. has_reason current r.key ≡ true) xs
    → All
        (λ r.
          has_reason kept r.key ≡ false → (r.active ≡ false) × (has_reason current r.key ≡ true))
        (map retired (filter (λ r. not (has_reason kept r.key)) xs))
retired-off kept current [] h = tt
retired-off kept current (r ∷ xs) (p, h) = elim (Bool-cases (has_reason kept r.key)) [
  | inl t ↦ rw t (retired-off kept current xs h)
  | inr f ↦ rw f ((λ q. (refl, p)), retired-off kept current xs h)
]

retire_reasons-IsRetiring :
    (current kept : List WaitingReasonDefinition)
    → IsRetiring current kept (retire_reasons current kept)
unfolding retire_reasons
retire_reasons-IsRetiring current kept =
    let off =
      map retired (filter (λ (r : WaitingReasonDefinition). not (has_reason kept r.key)) current) in
    (
      All-imp _ _ current
          (λ r h.
            rw (any-append (λ s. s.key == r.key) kept off) (retired-known kept current r.key h))
          (has_reason-own current),
      All-append _ kept off (kept-own kept current kept (has_reason-own kept))
          (retired-off kept current current (has_reason-own current)),
    )

-- The tables that say who may do what, and the clock, are the same.
abbrev SameAuthority : World → World → Type 0
SameAuthority w w' =
    (w'.db.users ≡ w.db.users)
    × (w'.db.service_tokens ≡ w.db.service_tokens)
    × (w'.db.boards ≡ w.db.boards)
    × (w'.db.policies ≡ w.db.policies)
    × (w'.clock_calls ≡ w.clock_calls)

clear_default-frame :
    (keys : List Role) (role : RoleDefinition) (w : World)
    → ((clear_default keys role w).0 ≡ ok tt) × SameAuthority w (clear_default keys role w).1
unfolding clear_default set_default
clear_default-frame keys role w = ground arith

-- Clearing the default boards of roles touches none of them.
clear_defaults-frame :
    (keys : List Role) (roles : List RoleDefinition) (w : World)
    → ((for_each roles (clear_default keys) w).0 ≡ ok tt)
      × SameAuthority w (for_each roles (clear_default keys) w).1
clear_defaults-frame keys [] w = (refl, (refl, refl, refl, refl, refl))
clear_defaults-frame keys (role ∷ roles) w =
    let (done, same) = clear_default-frame keys role w in
    let ih = clear_defaults-frame keys roles (clear_default keys role w).1 in ground arith

-- The version that a call to apply stores.
abbrev Stored : Deps → Actor → PolicyDocument → World → BoardPolicy → Type 0
Stored deps actor config w version =
    (version.board_id ≡ deps.board_id)
    × (version.config ≡ config)
    × (version.created_by ≡ actor.id)
    × (version.created_at ≡ deps.now w.clock_calls)

-- The row that goes to the initial board, where it is another one and the roles change.
abbrev Follows : Deps → Uuid → PolicyDocument → BoardPolicy → BoardPolicy → Type 0
Follows deps authority global version row =
    (row.board_id ≡ authority)
    × (row.config ≡ record global { roles = version.config.roles })
    × (row.created_at ≡ version.created_at)

insert_version-run :
    (deps : Deps) (actor : Actor) (authority : Uuid) (global config : PolicyDocument) (w w' : World)
    (version : BoardPolicy)
    → insert_version deps actor authority global config w ≡ (ok version, w')
    → Stored deps actor config w version
      × (w'.db.users ≡ w.db.users)
      × (w'.db.service_tokens ≡ w.db.service_tokens)
      × (w'.db.boards ≡ w.db.boards)
      × ((((authority ≡ deps.board_id)
              ⊎ (((authority == deps.board_id) ≡ false)
                  × (same_roles global.roles config.roles ≡ true)))
            × (w'.db.policies ≡ w.db.policies ++ version ∷ []))
          ⊎ ((row : BoardPolicy) × ((authority == deps.board_id) ≡ false)
              × Follows deps authority global version row
              × (w'.db.policies ≡ (w.db.policies ++ version ∷ []) ++ row ∷ [])))
unfolding insert_version insert_policy update_authority
insert_version-run deps actor authority global config w w' version h =
    let roles = role_keys config in
    let (done, same) = clear_defaults-frame roles global.roles w in
    let w1 = (for_each global.roles (clear_default roles) w).1 in
    elim (Bool-cases (authority == deps.board_id)) [
      | inl own ↦ (
        (ground arith, ground arith, ground arith, ground arith),
        ground arith,
        ground arith,
        ground arith,
        inl (inl (ground arith), ground arith),
      )
      | inr other ↦ elim (Bool-cases (same_roles global.roles config.roles)) [
        | inl t ↦ (
          (ground arith, ground arith, ground arith, ground arith),
          ground arith,
          ground arith,
          ground arith,
          inl (inr (other, t), ground arith),
        )
        | inr f ↦
            let row : BoardPolicy = record version {
              id = deps.new_id (w1.id_calls + 1);
              board_id = authority;
              config = record global { roles = version.config.roles };
            } in
            (
              (ground arith, ground arith, ground arith, ground arith),
              ground arith,
              ground arith,
              ground arith,
              inr (row, other, (ground arith, ground arith, ground arith), ground arith),
            )
      ]
    ]
