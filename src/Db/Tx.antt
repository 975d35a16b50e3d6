-- ===== src/Db/Tx.antt =====
-- A call over the store that may throw: it ends with a result and the world as it left it. The
-- units of work of packages/core/src/testing/in-memory-db.ts and the ports of ports/runtime.ts.
use ai_kanban.Prelude.{◌+◌, Bool, true, false, List, [], ◌∷◌, ◌++◌, ◌≡◌, inl, inr, arith}
use ai_kanban.Domain.Vocabulary.{Uuid, Instant}
use ai_kanban.Domain.Entities.{Card}
use ai_kanban.Domain.Events.{SseHint}
use ai_kanban.Domain.Errors.{DomainError, Result, ok, err, Result-cases}
use ai_kanban.Db.State.{DbState, World, Deps}

abbrev pub Tx : Type 0 → Type 0
Tx A = World → Result A × World

infixl 5 ◌>>=◌ ◌>>◌
abbrev pub ◌>>=◌ : {A B : Type 0} → Tx A → (A → Tx B) → Tx B
◌>>=◌ m f w = let (r, w') = m w in elim r [ ok a ↦ f a w' | err e ↦ (err e, w') ]

abbrev pub ◌>>◌ : {A B : Type 0} → Tx A → Tx B → Tx B
m >> k = m >>= λ _. k

module _ {A : Type 0} where
  abbrev pub pure : A → Tx A
  pure a w = (ok a, w)

  abbrev pub raise : DomainError → Tx A
  raise e w = (err e, w)

  abbrev pub lift : Result A → Tx A
  lift r w = (r, w)

  -- A read of the tables.
  abbrev pub reads : (DbState → Result A) → Tx A
  reads f w = (f w.db, w)

  abbrev pub gets : (DbState → A) → Tx A
  gets f w = (ok (f w.db), w)

  -- `UnitOfWork.run`: what a failed call wrote to the tables is dropped; calls are serialised.
  unfoldable pub run : Tx A → Tx A
  run m w =
      let (r, w') = m w in elim r [ ok a ↦ (ok a, w') | err e ↦ (err e, record w' { db = w.db }) ]

  -- `UnitOfWork.read`: nothing commits.
  unfoldable pub read : Tx A → Tx A
  read m w = let (r, w') = m w in (r, record w' { db = w.db })

abbrev pub modify : (DbState → DbState) → Tx (Unit {0})
modify f w = (ok tt, record w { db = f w.db })

-- `if (test) throw error`
abbrev pub throw_if : Bool → DomainError → Tx (Unit {0})
throw_if true e w = (err e, w)
throw_if false e w = (ok tt, w)

-- `if (test) action`
abbrev pub when : Bool → Tx (Unit {0}) → Tx (Unit {0})
when true m = m
when false m = pure tt

abbrev pub for_each : {A : Type 0} → List A → (A → Tx (Unit {0})) → Tx (Unit {0})
for_each [] f = pure tt
for_each (x ∷ xs) f = f x >> for_each xs f

-- `clock.now()`
abbrev pub now : Deps → Tx Instant
now deps w = (ok (deps.now w.clock_calls), record w { clock_calls = w.clock_calls + 1 })

-- `ids.newId()`
abbrev pub new_id : Deps → Tx Uuid
new_id deps w = (ok (deps.new_id w.id_calls), record w { id_calls = w.id_calls + 1 })

-- `eventBus.publish`
abbrev pub publish : SseHint → Tx (Unit {0})
publish hint w = (ok tt, record w { hints = w.hints ++ hint ∷ [] })

-- `notifier.cardCompleted`, whose failures are swallowed.
abbrev pub card_completed : Card → Tx (Unit {0})
card_completed card w = (ok tt, record w { completed_notices = w.completed_notices ++ card ∷ [] })

-- A call that ends in a value went through both its halves.
pub bind-ok :
    {A B : Type 0} (m : Tx A) (f : A → Tx B) (w w' : World) (b : B)
    → (m >>= f) w ≡ (ok b, w')
    → (a : A) × (w1 : World) × (m w ≡ (ok a, w1)) × (f a w1 ≡ (ok b, w'))
bind-ok m f w w' b h = elim (Result-cases (m w).0) [
  | inl (a, e) ↦ (a, (m w).1, ground arith, ground arith)
  | inr (x, e) ↦ absurd (ground arith)
]
