-- ===== src/Transactions.antt =====
-- packages/core/src/testing/in-memory-db.ts and services/internal.ts: what a unit of work and its one
-- retry promise to the services.
use ai_kanban.Prelude.{
  List, Option-cases, get_last?, ◌≡◌, arith, Option, some, none, refl, ap, ◌∙◌, true, false, ◌≢◌,
  ◌⊎◌, inl, inr,
}
use ai_kanban.Domain.Entities.{Card}
use ai_kanban.Domain.Errors.{
  DomainError, Result, ok, err, Result-cases, conflict, duplicate_position,
}
use ai_kanban.Db.State.{World}
use ai_kanban.Domain.Events.{CardEvent}
use ai_kanban.Db.Tx.{Tx, run, read, ◌>>=◌, ◌>>◌, pure}
use ai_kanban.Services.Internal.{
  publish_card_hints, run_with_position_retry, is_duplicate_position, retry, persisted_conflict,
}

is_duplicate_cases :
    (e : DomainError)
    → ((e ≡ duplicate_position) × (is_duplicate_position e ≡ true))
      ⊎ ((e ≢ duplicate_position) × (is_duplicate_position e ≡ false))
is_duplicate_cases duplicate_position = inl (refl, refl)
is_duplicate_cases _ = inr (λ e. cc, refl)

module _ {A : Type 0} where
  -- The world after a failed run of `fn`.
  abbrev pub rolled_back : Tx A → World → World
  rolled_back fn w = record ((fn w).1) { db = w.db }

  pub run-ok : (m : Tx A) (w w' : World) (a : A) → run m w ≡ (ok a, w') → m w ≡ (ok a, w')
  unfolding run
  run-ok m w w' a h = ground arith

  -- A failed unit of work leaves the tables as they were.
  pub run-atomic :
      (m : Tx A) (w w' : World) (e : DomainError) → run m w ≡ (err e, w') → w'.db ≡ w.db
  unfolding run
  run-atomic m w w' e h = ground arith

  persisted_conflict-same :
      (current_card : Option (Tx Card)) (w w' : World) (x : Result A)
      → persisted_conflict current_card w ≡ (x, w')
      → (w'.db ≡ w.db) × ((a : A) → x ≡ ok a → ⊥)
  unfolding persisted_conflict read
  persisted_conflict-same none w w' x h = ground arith
  persisted_conflict-same (some m) w w' x h = ground arith

  retry-ok :
      (fn : Tx A) (current_card : Option (Tx Card)) (w w' : World) (a : A)
      → retry fn current_card w ≡ (ok a, w')
      → fn w ≡ (ok a, w')
  unfolding retry run
  retry-ok fn current_card w w' a h =
      ground (arith, persisted_conflict-same current_card (rolled_back fn w) w' (ok a))

  retry-atomic :
      (fn : Tx A) (current_card : Option (Tx Card)) (w w' : World) (e : DomainError)
      → retry fn current_card w ≡ (err e, w')
      → w'.db ≡ w.db
  unfolding retry run
  retry-atomic fn current_card w w' e h =
      ground (arith, persisted_conflict-same current_card (rolled_back fn w) w' (err e))

  -- A result under the retry is the one of the first run, or of a second on the same tables.
  pub run_with_position_retry-ok :
      (fn : Tx A) (current_card : Option (Tx Card)) (w w' : World) (a : A)
      → run_with_position_retry fn current_card w ≡ (ok a, w')
      → (w1 : World) × (w1.db ≡ w.db) × (fn w1 ≡ (ok a, w')) × ((w1 ≡ w) ⊎ (w1 ≡ rolled_back fn w))
  unfolding run_with_position_retry run
  run_with_position_retry-ok fn current_card w w' a h = elim (Result-cases (fn w).0) [
    | inl (b, o) ↦ (w, refl, ground arith, inl refl)
    | inr (e, o) ↦ (
      rolled_back fn w,
      refl,
      retry-ok fn current_card (rolled_back fn w) w' a (ground arith),
      inr refl,
    )
  ]

  -- A mutation that fails, at once or after its retry, leaves the tables as they were.
  pub run_with_position_retry-atomic :
      (fn : Tx A) (current_card : Option (Tx Card)) (w w' : World) (e : DomainError)
      → run_with_position_retry fn current_card w ≡ (err e, w')
      → w'.db ≡ w.db
  unfolding run_with_position_retry run
  run_with_position_retry-atomic fn current_card w w' e h =
      ground (arith, retry-atomic fn current_card (rolled_back fn w) w' e)

  retry-err :
      (fn : Tx A) (current_card : Tx Card) (w w' : World) (e : DomainError)
      → retry fn (some current_card) w ≡ (err e, w')
      → (w1 : World) × (w1.db ≡ w.db)
        × (((e ≢ duplicate_position) × ((fn w1).0 ≡ err e))
            ⊎ (((current_card w1).0 ≡ err e)
                ⊎ ((card : Card) × ((current_card w1).0 ≡ ok card)
                    × (e ≡ conflict "position conflict persisted after retry" (some card)))))
  unfolding retry run persisted_conflict read
  retry-err fn current_card w w' e h = elim (Result-cases (fn w).0) [
    | inl (a, o) ↦ absurd (ground arith)
    | inr (x, o) ↦ elim (is_duplicate_cases x) [
      | inr (n, f) ↦
          let same : x ≡ e = ground arith in (w, refl, inl (λ q. n (same ∙ q), o ∙ ap err same))
      | inl (t, y) ↦
          let w2 = rolled_back fn w in
          elim (Result-cases (current_card w2).0) [
            | inl (card, q) ↦ (w2, refl, inr (inr (card, q, ground arith)))
            | inr (z, q) ↦ (w2, refl, inr (inl (ground arith)))
          ]
    ]
  ]

  -- An error under the retry is that of one of the two runs, or the place was taken twice and the
  -- error is made of the current card, read from the same tables.
  pub run_with_position_retry-err :
      (fn : Tx A) (current_card : Tx Card) (w w' : World) (e : DomainError)
      → run_with_position_retry fn (some current_card) w ≡ (err e, w')
      → (w1 : World) × (w1.db ≡ w.db)
        × (((e ≢ duplicate_position) × ((fn w1).0 ≡ err e))
            ⊎ (((fn w).0 ≡ err duplicate_position)
                × (((current_card w1).0 ≡ err e)
                    ⊎ ((card : Card) × ((current_card w1).0 ≡ ok card)
                        × (e ≡ conflict "position conflict persisted after retry" (some card))))))
  unfolding run_with_position_retry run retry persisted_conflict read
  run_with_position_retry-err fn current_card w w' e h = elim (Result-cases (fn w).0) [
    | inl (a, o) ↦ absurd (ground arith)
    | inr (x, o) ↦ elim (is_duplicate_cases x) [
      | inr (n, f) ↦
          let same : x ≡ e = ground arith in (w, refl, inl (λ q. n (same ∙ q), o ∙ ap err same))
      | inl (t, y) ↦
          let w1 = rolled_back fn w in
          let first : (fn w).0 ≡ err duplicate_position = o ∙ ap err t in
          let again : retry fn (some current_card) w1 ≡ (err e, w') = ground arith in
          let (w2, same, how) = retry-err fn current_card w1 w' e again in
          (w2, same, elim how [ inl own ↦ inl own | inr read ↦ inr (first, read) ])
    ]
  ]

pub publish_card_hints-ok :
    (c : Card) (es : List CardEvent) (w : World)
    → ((publish_card_hints c es w).0 ≡ ok tt) × ((publish_card_hints c es w).1.db ≡ w.db)
unfolding publish_card_hints
publish_card_hints-ok c es w = elim (Option-cases (get_last? es)) [
  | inl e ↦ (ground arith, ground arith)
  | inr (l, e) ↦ (ground arith, ground arith)
]

-- A unit of work, then one hint for what it wrote, then its value.
module _ {R A : Type 0} (m : Tx R) (card : R → Card) (events : R → List CardEvent)
    (value : R → A) where
  abbrev pub mutation : Tx A
  mutation = run m >>= λ r. publish_card_hints (card r) (events r) >> pure (value r)

  -- A mutation that fails changes no table, and one that succeeds leaves what its unit of work wrote.
  pub mutation-run :
      (w w' : World) (x : Result A)
      → mutation w ≡ (x, w')
      → ((w'.db ≡ w.db) × ((a : A) → x ≡ ok a → ⊥))
        ⊎ ((r : R) × (w1 : World) × (x ≡ ok (value r)) × (m w ≡ (ok r, w1)) × (w'.db ≡ w1.db))
  unfolding run
  mutation-run w w' x h = elim (Result-cases (m w).0) [
    | inl (r, e) ↦
        let (p, q) = publish_card_hints-ok (card r) (events r) (m w).1 in
        inr (r, (m w).1, ground arith, ground arith, ground arith)
    | inr (e, q) ↦ inl (ground arith, λ a p. ground arith)
  ]

  -- The world after a mutation that fails.
  pub mutation-err :
      (w w' : World) (e : DomainError) → mutation w ≡ (err e, w') → w' ≡ rolled_back m w
  unfolding run
  mutation-err w w' e h = elim (Result-cases (m w).0) [
    | inl (r, q) ↦
        let (p, _) = publish_card_hints-ok (card r) (events r) (m w).1 in absurd (ground arith)
    | inr (d, q) ↦ ground arith
  ]
