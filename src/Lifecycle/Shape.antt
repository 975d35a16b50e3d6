-- ===== src/Lifecycle/Shape.antt =====
-- packages/core/src/services/card-service.ts: what the fields of a card say in each lane, and that each
-- change of a card keeps it.
use ai_kanban.Prelude.{
  ◌≡◌, ◌≤◌, arith, true, false, ◌==◌, string_eq, Position, Option, some, none, refl, is_some,
  bool_eq, nat_eq, Bool, subst, sym,
}
use ai_kanban.Domain.Vocabulary.{LaneKey, Instant, done_key, waiting_key}
use ai_kanban.Domain.Entities.{Card, Lane}
use ai_kanban.Domain.Commands.{CancelCardInput}
use ai_kanban.Services.Card

-- Of a card in a lane with the key: only `done` holds archived and resolved cards, only the waiting
-- lane holds cards with waiting fields, a blocked card is one with a reason and a date, and versions
-- count from one.
abbrev pub FieldsAt : Bool → Bool → Card → Type 0
FieldsAt is_done is_waiting c =
    (is_some c.archived_at ≡ true → is_done ≡ true)
    × (is_some c.resolution ≡ true → is_done ≡ true)
    × (is_some c.waiting_reason ≡ true → is_waiting ≡ true)
    × (is_some c.expected_resume_at ≡ true → is_waiting ≡ true)
    × ((c.blocked ≡ is_some c.blocked_reason)
        × (c.blocked ≡ is_some c.blocked_at)
        × (1 ≤ c.version))

abbrev pub FieldsIn : LaneKey → Card → Type 0
FieldsIn key c = FieldsAt (key == done_key) (key == waiting_key) c

done-waiting : (key : LaneKey) → (key == done_key) ≡ true → (key == waiting_key) ≡ false
done-waiting key h =
    subst (λ k. (k == waiting_key) ≡ false) (sym ((string_eq.equal_iff key done_key).0 h)) refl

module _ (key : LaneKey) (card : Card) (fields : FieldsIn key card) where
  pub archived_card-FieldsIn :
      (now_iso : Instant)
      → (key == done_key) ≡ true
      → FieldsIn key (Card.archived_card now_iso card)
  unfolding Card.archived_card
  archived_card-FieldsIn now_iso d = ground arith

  pub flagged_card-FieldsIn :
      (reason : Option _) (now_iso : Instant) → FieldsIn key (Card.flagged_card reason now_iso card)
  unfolding Card.flagged_card
  flagged_card-FieldsIn reason now_iso = ground arith

  pub cancelled_card-FieldsIn :
      (done : Lane) (position : Position) (input : CancelCardInput) (now_iso : Instant)
      → (done.key == done_key) ≡ true
      → FieldsIn done.key (Card.cancelled_card done position input now_iso card)
  unfolding Card.cancelled_card
  cancelled_card-FieldsIn done position input now_iso d = ground arith

  pub reopened_card-FieldsIn :
      (target : Lane) (position : Position) (restored : Bool) (payload : Option Card.CancelPayload)
      (now_iso : Instant)
      → (key == done_key) ≡ true
      → FieldsIn target.key (Card.reopened_card target position restored payload now_iso card)
  unfolding Card.reopened_card
  reopened_card-FieldsIn target position restored payload now_iso d =
      ground (arith, done-waiting key d)

  pub placed_card-FieldsIn :
      (target : Lane) (position : Position) (now_iso : Instant)
      → FieldsIn key (Card.placed_card target position now_iso card)
  unfolding Card.placed_card
  placed_card-FieldsIn target position now_iso = ground arith

set_resolution-FieldsAt :
    (leaves enters is_waiting : Bool) (card : Card)
    → FieldsAt leaves is_waiting card
    → card.archived_at ≡ none
    → FieldsAt enters is_waiting (Card.set_resolution enters leaves card)
set_resolution-FieldsAt true enters is_waiting card (ar, re, wa, ex, rest) a =
    (ground arith, ground arith, wa, ex, rest)
set_resolution-FieldsAt false true is_waiting card (ar, re, wa, ex, rest) a =
    (ground arith, ground arith, wa, ex, rest)
set_resolution-FieldsAt false false is_waiting card (ar, re, wa, ex, rest) a =
    (ground arith, ground arith, wa, ex, rest)

waiting-FieldsAt :
    (is_done leaves enters : Bool) (fields : Option Card.WaitingFields) (card : Card)
    → FieldsAt is_done leaves card
    → (enters ≡ false → fields ≡ none)
    → FieldsAt is_done enters (Card.clear_waiting leaves (Card.set_waiting fields card))
waiting-FieldsAt is_done true enters none card (ar, re, wa, ex, rest) f =
    (ar, re, ground arith, ground arith, rest)
waiting-FieldsAt is_done true enters (some fields) card (ar, re, wa, ex, rest) f =
    (ar, re, ground arith, ground arith, rest)
waiting-FieldsAt is_done false enters none card (ar, re, wa, ex, rest) f =
    (ar, re, ground arith, ground arith, rest)
waiting-FieldsAt is_done false true (some fields) card (ar, re, wa, ex, rest) f =
    (ar, re, ground arith, ground arith, rest)
waiting-FieldsAt is_done false false (some fields) card (ar, re, wa, ex, rest) f =
    absurd (ground arith)

waiting-archived :
    (leaves : Bool) (fields : Option Card.WaitingFields) (card : Card)
    → (Card.clear_waiting leaves (Card.set_waiting fields card)).archived_at ≡ card.archived_at
waiting-archived leaves fields card = ground arith

-- A card that is not archived, on its way to another lane: what it carries along is cleared, and
-- waiting fields are given for the waiting lane only.
pub change_lane-FieldsIn :
    (lane target : Lane) (waiting_fields : Option Card.WaitingFields) (started : Option Instant)
    (card : Card)
    → FieldsIn lane.key card
    → card.archived_at ≡ none
    → ((target.key == waiting_key) ≡ false → waiting_fields ≡ none)
    → FieldsIn target.key (Card.change_lane lane target waiting_fields started card)
unfolding Card.change_lane
change_lane-FieldsIn lane target waiting_fields started card fields a f =
    set_resolution-FieldsAt (lane.key == done_key) (target.key == done_key)
      (target.key == waiting_key)
      (record (Card.clear_waiting (lane.key == waiting_key)
        (Card.set_waiting waiting_fields card)) { work_started_at = started })
      (waiting-FieldsAt (lane.key == done_key) (lane.key == waiting_key) (target.key == waiting_key)
        waiting_fields card fields f)
      (rw (waiting-archived (lane.key == waiting_key) waiting_fields card) a)
