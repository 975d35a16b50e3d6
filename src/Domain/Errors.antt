-- ===== src/Domain/Errors.antt =====
-- packages/core/src/domain/errors.ts: the typed errors, and the result of a call that may throw.
use ai_kanban.Prelude.{
  ℕ, Option, none, some, String, Bool, true, false, ◌≡◌, refl, ◌⊎◌, inl, inr, arith,
}
use ai_kanban.Domain.Vocabulary.{LaneKey}
use ai_kanban.Domain.Entities.{Card}

pub data DomainError : Type 0 where
  policy_denied : (rule : String) → DomainError
  illegal_transition : (from : LaneKey) → (to : LaneKey) → DomainError
  conflict : (message : String) → (current : Option Card) → DomainError
  archived : DomainError
  not_found : (resource : String) → DomainError
  limit_exceeded : (message : String) → (limit : ℕ) → DomainError
  duplicate_position : DomainError
  -- A `ZodError`.
  invalid : DomainError
  -- A plain `Error`.
  unexpected : (message : String) → DomainError

pub data Result {ℓ} (A : Type ℓ) : Type ℓ where
  ok : A → Result A
  err : DomainError → Result A

infixl 5 ◌>>=◌ ◌>>◌
abbrev pub ◌>>=◌ {ℓ κ} : {A : Type ℓ} {B : Type κ} → Result A → (A → Result B) → Result B
ok a >>= f = f a
err e >>= f = err e

abbrev pub ◌>>◌ {ℓ κ} : {A : Type ℓ} {B : Type κ} → Result A → Result B → Result B
m >> k = m >>= λ _. k

-- `if (test) throw error`
abbrev pub throw_if : Bool → DomainError → Result (Unit {0})
throw_if true e = err e
throw_if false e = ok tt

-- `requireFound`
abbrev pub require_found {ℓ} : {A : Type ℓ} → Option A → String → Result A
require_found none resource = err (not_found resource)
require_found (some a) resource = ok a

-- A result that is no error is a value, for whatever follows from one.
pub with_ok {ℓ κ} :
    {A : Type ℓ} {R : Type κ} (x : Result A)
    → ((e : DomainError) → x ≡ err e → ⊥)
    → ((a : A) → x ≡ ok a → R)
    → R
with_ok (ok a) h k = k a refl
with_ok (err e) h k = absurd (h e refl)

-- An optional value that is not absent is there.
pub with_some {ℓ κ} :
    {A : Type ℓ} {R : Type κ} (x : Option A) → (x ≡ none → ⊥) → ((a : A) → x ≡ some a → R) → R
with_some none h k = absurd (h refl)
with_some (some a) h k = k a refl

pub Result-cases {ℓ} :
    {A : Type ℓ} (x : Result A) → ((a : A) × (x ≡ ok a)) ⊎ ((e : DomainError) × (x ≡ err e))
Result-cases (ok a) = inl (a, refl)
Result-cases (err e) = inr (e, refl)

pub ok-cancel {ℓ} : {A : Type ℓ} {a b : A} → Result.ok a ≡ ok b → a ≡ b
ok-cancel e = ground arith
