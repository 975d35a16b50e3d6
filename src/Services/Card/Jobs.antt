-- ===== src/Services/Card/Jobs.antt =====
-- packages/core/src/services/card-service.ts: the nightly archival and the hourly overdue alerts.
use ai_kanban.Prelude.{
  ℕ, ◌+◌, ◌*◌, Bool, true, false, ◌&&◌, not, Option, none, some, List, [], ◌∷◌, ◌++◌, string_eq,
  nat_eq, ◌==◌, ◌!=◌, is_some, if◌then◌else◌, ltb, filter, includes, map, head?,
}
use ai_kanban.Domain.Vocabulary.{Instant, Date, Permission, permission_eq, done_key, waiting_key}
use ai_kanban.Domain.Entities.{Actor, Card, Board, Lane, User}
use ai_kanban.Domain.Events.{CardEvent, CardEventBody, CardEventType}
use ai_kanban.Domain.Policy.{PolicyDocument, RoleDefinition, grants}
use ai_kanban.Domain.Dates.{utc_day_of}
use ai_kanban.Domain.Errors
use ai_kanban.Domain.Errors.{Result, ok, err}
use ai_kanban.Db.State.{DbState, Deps}
use ai_kanban.Db.Tx.{Tx, ◌>>=◌, ◌>>◌, pure, reads, gets, now, run, read}
use ai_kanban.Db.Cards.{find_card, update_card, query, no_filter}
use ai_kanban.Db.Rows.{find_board, list_boards, find_lane_by_key, find_user, list_latest_events}
use ai_kanban.Services.Access.{can_access_board, require_board_access, active_policy, as_actor}
use ai_kanban.Services.Internal.{publish_card_hints}
use ai_kanban.Services.Card.Common.{MutationResult, commit}
use ai_kanban.Services.Card.Finish.{archived_card}

abbrev pub done_archival_ms : ℕ
done_archival_ms = 90 * 86400000

-- When the card entered Done, by the newest event that can have brought it there.
unfoldable pub entered_done_at : Card → DbState → Instant
entered_done_at card db = arrival (
    head? (
      list_latest_events card.id 1
        (CardEventType.card_status_changed ∷ CardEventType.card_cancelled ∷ []) db))
  where
    at : CardEvent → CardEventBody → Instant
    at event (CardEventBody.card_cancelled _ _ _ _) = event.created_at
    at event (CardEventBody.card_status_changed _ to_lane _ _) =
        if to_lane == done_key then event.created_at else card.updated_at
    at event _ = card.updated_at

    arrival : Option CardEvent → Instant
    arrival none = card.updated_at
    arrival (some event) = at event event.body

abbrev of_board : Deps → Board → DbState → Option Lane → List Card
of_board deps board db none = []
of_board deps board db (some done) =
    query deps (record no_filter { board_id = some board.id; lane_id = some done.id }) db

unfoldable pub expiry_candidates : Deps → List Board → DbState → List Card
expiry_candidates deps [] db = []
expiry_candidates deps (board ∷ boards) db =
    of_board deps board db (find_lane_by_key board.id done_key db)
    ++ expiry_candidates deps boards db

-- Still active, and where the candidate was.
abbrev is_unchanged : Card → Card → Bool
is_unchanged candidate card = not (is_some card.archived_at) && card.lane_id == candidate.lane_id

abbrev is_live : Option Board → Bool
is_live none = false
is_live (some board) = not (is_some board.archived_at)

-- One candidate, read again inside its own transaction.
unfoldable pub expire_tx : Deps → Actor → Instant → Card → Tx (Option MutationResult)
unfolding entered_done_at archived_card commit
expire_tx deps actor started candidate = do
  found ← gets (find_card candidate.id)
  elim found [
    | none ↦ pure none
    | some card ↦ elim (is_unchanged candidate card) [
      | false ↦ pure none
      | true ↦ do
        live ← gets (λ db. is_live (find_board card.board_id db))
        elim live [
          | false ↦ pure none
          | true ↦ do
            reads (require_board_access actor card.board_id)
            entered ← gets (entered_done_at card)
            elim (ltb started (entered + done_archival_ms)) [
              | true ↦ pure none
              | false ↦ do
                now_iso ← now deps
                result ← commit deps actor (archived_card now_iso card) CardEventBody.card_archived
                pure (some result)
            ]
        ]
    ]
  ]

abbrev announce : Option MutationResult → ℕ → Tx ℕ
announce none archived = pure archived
announce (some result) archived =
    publish_card_hints result.card result.events >> pure (archived + 1)

unfoldable pub expire_each : Deps → Actor → Instant → List Card → ℕ → Tx ℕ
unfolding expire_tx run
expire_each deps actor started [] archived = pure archived
expire_each deps actor started (candidate ∷ candidates) archived = do
  result ← run (expire_tx deps actor started candidate)
  archived' ← announce result archived
  expire_each deps actor started candidates archived'

-- The number of cards archived.
unfoldable pub archive_expired : Deps → Actor → Tx ℕ
unfolding expiry_candidates expire_each read
archive_expired deps actor = do
  started ← now deps
  candidates ← read (gets (λ db. expiry_candidates deps (list_boards db) db))
  expire_each deps actor started candidates 0

pub record Alert : Type 0 where
  pub card : Card
  pub recipients : List User

-- The active users, but the automation's, whose role grants manageUsers.
unfoldable pub supervisors : Deps → PolicyDocument → DbState → List User
supervisors deps policy db =
    let admin_role_keys =
      map (λ (role : RoleDefinition). role.key)
        (filter (λ role. grants role Permission.manage_users) policy.roles) in
    filter
      (λ user.
        includes admin_role_keys user.role && user.is_active && user.id != deps.system_user_id)
      db.users

-- `Map.set` by id: the first place of an id stays, with the last user.
unfoldable pub set_recipient : User → List User → List User
set_recipient user [] = user ∷ []
set_recipient user (u ∷ us) = if u.id == user.id then user ∷ us else u ∷ set_recipient user us

abbrev set_recipients : List User → List User → List User
set_recipients [] recipients = recipients
set_recipients (u ∷ us) recipients = set_recipients us (set_recipient u recipients)

abbrev active_assignee : Option User → List User
active_assignee none = []
active_assignee (some user) = if user.is_active then user ∷ [] else []

unfoldable pub recipients_of : Card → List User → DbState → List User
unfolding set_recipient
recipients_of card supervising db =
    set_recipients supervising
      (elim (card.assignee_id) [ none ↦ [] | some id ↦ active_assignee (find_user id db) ])

unfoldable pub visible_recipients : Board → List User → DbState → Result (List User)
visible_recipients board [] db = ok []
visible_recipients board (user ∷ users) db =
    Errors.◌>>=◌ (can_access_board db (as_actor user) board) λ visible.
      Errors.◌>>=◌ (visible_recipients board users db)
        λ rest. ok (if visible then user ∷ rest else rest)

-- Marks each overdue card, and resolves who is told.
unfoldable pub claim_cards : Instant → Board → List User → List Card → Tx (List Alert)
unfolding recipients_of visible_recipients
claim_cards now_iso board supervising [] = pure []
claim_cards now_iso board supervising (card ∷ cards) = do
  recipients ← gets (recipients_of card supervising)
  let marked = record card { resume_alerted_at = some now_iso }
  update_card marked
  visible ← reads (visible_recipients board recipients)
  rest ← claim_cards now_iso board supervising cards
  pure (record { card = marked; recipients = visible } ∷ rest)

-- The waiting cards past their resume date that nobody was told of.
unfoldable pub overdue_cards : Deps → Date → Lane → DbState → List Card
overdue_cards deps today lane db =
    filter (λ card. not (is_some card.resume_alerted_at))
      (query deps (record no_filter { lane_id = some lane.id; overdue_before = some today }) db)

abbrev claim_lane : Deps → Instant → Board → List Card → Tx (List Alert)
claim_lane deps now_iso board [] = pure []
claim_lane deps now_iso board (card ∷ cards) = do
  policy ← reads (active_policy board.id)
  supervising ← gets (supervisors deps policy)
  claim_cards now_iso board supervising (card ∷ cards)

abbrev claim_board : Deps → Instant → Board → Option Lane → Tx (List Alert)
claim_board deps now_iso board none = pure []
claim_board deps now_iso board (some lane) =
    gets (overdue_cards deps (utc_day_of now_iso) lane) >>= claim_lane deps now_iso board

unfoldable pub claim_boards : Deps → Instant → List Board → Tx (List Alert)
unfolding claim_cards overdue_cards supervisors
claim_boards deps now_iso [] = pure []
claim_boards deps now_iso (board ∷ boards) = do
  lane ← gets (find_lane_by_key board.id waiting_key)
  alerts ← claim_board deps now_iso board lane
  rest ← claim_boards deps now_iso boards
  pure (alerts ++ rest)

-- Every overdue episode is claimed before any alert is delivered.
unfoldable pub claim_overdue_waiting_alerts : Deps → Tx (List Alert)
unfolding claim_boards run
claim_overdue_waiting_alerts deps = do
  now_iso ← now deps
  run (gets list_boards >>= claim_boards deps now_iso)
