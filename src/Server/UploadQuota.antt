-- ===== src/Server/UploadQuota.antt =====
-- packages/server/src/uploads/upload-quota.ts: `UploadQuota`.
use ai_kanban.Prelude.{
  ℕ, ◌+◌, ◌-◌, Bool, true, false, Option, none, some, List, [], ◌∷◌, nat_eq, option_eq, ◌==◌, ltb,
  or_else, if◌then◌else◌,
}
use ai_kanban.Domain.Vocabulary.{Uuid, Date}

-- `byUser`, a `Map` with the keys in the order of insertion.
abbrev pub get : List (Uuid × ℕ) → Uuid → Option ℕ
get [] user_id = none
get ((id, bytes) ∷ rest) user_id = if id == user_id then some bytes else get rest user_id

abbrev pub put : List (Uuid × ℕ) → Uuid → ℕ → List (Uuid × ℕ)
put [] user_id bytes = (user_id, bytes) ∷ []
put ((id, old) ∷ rest) user_id bytes =
    if id == user_id then (id, bytes) ∷ rest else (id, old) ∷ put rest user_id bytes

-- The day is none before the first call.
pub record UploadQuota : Type 0 where
  pub day : Option Date
  pub by_user : List (Uuid × ℕ)

abbrev pub new_quota : UploadQuota
new_quota = record { day = none; by_user = [] }

unfoldable pub rollover : Date → UploadQuota → UploadQuota
rollover today quota =
    if quota.day == some today then quota else record { day = some today; by_user = [] }

abbrev pub used : UploadQuota → Uuid → ℕ
used quota user_id = or_else (get quota.by_user user_id) 0

unfoldable pub reserve : ℕ → Date → Uuid → ℕ → UploadQuota → Bool × UploadQuota
unfolding rollover
reserve limit_bytes today user_id bytes quota =
    let current = rollover today quota in
    if ltb limit_bytes (used current user_id + bytes) then (false, current) else (
      true,
      record current { by_user = put current.by_user user_id (used current user_id + bytes) },
    )

-- Clamped at zero.
unfoldable pub release : Date → Uuid → ℕ → UploadQuota → UploadQuota
unfolding rollover
release today user_id bytes quota =
    let current = rollover today quota in
    record current { by_user = put current.by_user user_id (used current user_id - bytes) }
