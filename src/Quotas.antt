-- ===== src/Quotas.antt =====
-- packages/server/src/uploads/upload-quota.ts: what a user can upload on one day.
use ai_kanban.Prelude.{
  ℕ, ◌+◌, ◌-◌, ◌≤◌, true, false, Option, none, some, List, [], ◌∷◌, ◌≡◌, inl, inr, refl, ap, ◌∙◌,
  arith, nat_eq, option_eq, ◌==◌, ltb, if◌then◌else◌, Bool-cases,
}
use ai_kanban.Domain.Vocabulary.{Uuid, Date}
use ai_kanban.Server.UploadQuota.{UploadQuota, get, put, rollover, used, reserve, release}

get-put_self :
    (m : List (Uuid × ℕ)) (user_id : Uuid) (bytes : ℕ)
    → get (put m user_id bytes) user_id ≡ some bytes
get-put_self [] user_id bytes = ground (arith, (nat_eq.equal_iff user_id user_id).1 refl)
get-put_self ((id, old) ∷ rest) user_id bytes = ground (arith, get-put_self rest user_id bytes)

get-put_other :
    (m : List (Uuid × ℕ)) (user_id other : Uuid) (bytes : ℕ)
    → (user_id == other) ≡ false
    → get (put m user_id bytes) other ≡ get m other
get-put_other [] user_id other bytes h = ground arith
get-put_other ((id, old) ∷ rest) user_id other bytes h =
    ground (arith, get-put_other rest user_id other bytes h, nat_eq.equal_iff id user_id)

-- A call by a route: a reservation before an upload, or a refund after one that failed.
pub data Call : Type 0 where
  reserved : Uuid → ℕ → Call
  refunded : Uuid → ℕ → Call

abbrev pub after : ℕ → Date → Call → UploadQuota → UploadQuota
after limit today (Call.reserved user bytes) quota = (reserve limit today user bytes quota).1
after limit today (Call.refunded user bytes) quota = release today user bytes quota

-- The bytes that the call lets the user upload.
abbrev pub accepted : ℕ → Date → Uuid → Call → UploadQuota → ℕ
accepted limit today user (Call.reserved id bytes) quota =
    if id == user then if (reserve limit today id bytes quota).0 then bytes else 0 else 0
accepted limit today user (Call.refunded id bytes) quota = 0

abbrev pub refunds : Uuid → Call → ℕ
refunds user (Call.reserved id bytes) = 0
refunds user (Call.refunded id bytes) = if id == user then bytes else 0

abbrev pub accepted_all : ℕ → Date → Uuid → List Call → UploadQuota → ℕ
accepted_all limit today user [] quota = 0
accepted_all limit today user (c ∷ calls) quota =
    accepted limit today user c quota
    + accepted_all limit today user calls (after limit today c quota)

abbrev pub refunds_all : Uuid → List Call → ℕ
refunds_all user [] = 0
refunds_all user (c ∷ calls) = refunds user c + refunds_all user calls

abbrev pub after_all : ℕ → Date → List Call → UploadQuota → UploadQuota
after_all limit today [] quota = quota
after_all limit today (c ∷ calls) quota = after_all limit today calls (after limit today c quota)

option_nat_eq : (a : Option ℕ) (b : ℕ) → (a == some b) ≡ true → a ≡ some b
option_nat_eq none b h = cc
option_nat_eq (some a) b h = ground (arith, nat_eq.equal_iff a b)

rollover-day : (today : Date) (quota : UploadQuota) → (rollover today quota).day ≡ some today
unfolding rollover
rollover-day today quota = elim (Bool-cases (quota.day == some today)) [
  | inl t ↦ rw t (ground (arith, option_nat_eq quota.day today t))
  | inr f ↦ rw f refl
]

-- A counter of the day is left alone.
rollover-same :
    (today : Date) (quota : UploadQuota) → quota.day ≡ some today → rollover today quota ≡ quota
unfolding rollover
rollover-same today quota h =
    let t : (quota.day == some today) ≡ true = rw h ((nat_eq.equal_iff today today).1 refl) in
    rw t refl

-- A call moves the counter by what it lets through, and down by no more than what it refunds.
after-used :
    (limit : ℕ) (today : Date) (user : Uuid) (c : Call) (quota : UploadQuota)
    → ((after limit today c quota).day ≡ some today)
      × (used (rollover today quota) user + accepted limit today user c quota
          ≤ used (after limit today c quota) user + refunds user c)
      × (used (rollover today quota) user ≤ limit → used (after limit today c quota) user ≤ limit)
unfolding reserve release
after-used limit today user (Call.reserved id bytes) quota =
    let current = rollover today quota in
    let day = rollover-day today quota in
    let total = used current id + bytes in
    let self = get-put_self current.by_user id total in
    elim (Bool-cases (ltb limit total)) [
      | inl over ↦ (ground arith, ground arith, λ h. ground arith)
      | inr fits ↦ elim (Bool-cases (id == user)) [
        | inl same ↦
            let e : id ≡ user = (nat_eq.equal_iff id user).0 same in
            let mine : get (put current.by_user id total) user ≡ some total = rw⁻¹ e self in
            let start : used current id ≡ used current user = ap (used current) e in
            (ground arith, ground arith, λ h. ground arith)
        | inr other ↦
            let kept = get-put_other current.by_user id user total other in
            (ground arith, ground arith, λ h. ground arith)
      ]
    ]
after-used limit today user (Call.refunded id bytes) quota =
    let current = rollover today quota in
    let day = rollover-day today quota in
    let left = used current id - bytes in
    let self = get-put_self current.by_user id left in
    elim (Bool-cases (id == user)) [
      | inl same ↦
          let e : id ≡ user = (nat_eq.equal_iff id user).0 same in
          let mine : get (put current.by_user id left) user ≡ some left = rw⁻¹ e self in
          let start : used current id ≡ used current user = ap (used current) e in
          (ground arith, ground arith, λ h. ground arith)
      | inr other ↦
          let kept = get-put_other current.by_user id user left other in
          (ground arith, ground arith, λ h. ground arith)
    ]

-- Whatever calls run on one day, a user who was within the limit is let through no more bytes than
-- the limit and what is refunded, beside what was used.
pub after_all-used :
    (limit : ℕ) (today : Date) (user : Uuid) (calls : List Call) (quota : UploadQuota)
    → used (rollover today quota) user ≤ limit
    → used (rollover today quota) user + accepted_all limit today user calls quota
      ≤ limit + refunds_all user calls
after_all-used limit today user [] quota h = ground arith
after_all-used limit today user (c ∷ calls) quota h =
    let next = after limit today c quota in
    let (day, moved, bound) = after-used limit today user c quota in
    let same = rollover-same today next day in
    let held : used (rollover today next) user ≤ limit = rw same (bound h) in
    let rest = after_all-used limit today user calls next held in
    let level : used (rollover today next) user ≡ used next user = ap (λ q. used q user) same in
    omega (arith, moved, rest, level)

rollover-next :
    (today tomorrow : Date) (quota : UploadQuota)
    → quota.day ≡ some today
    → (today == tomorrow) ≡ false
    → rollover tomorrow quota ≡ record { day = some tomorrow; by_user = [] }
unfolding rollover
rollover-next today tomorrow quota h apart =
    let t : (quota.day == some tomorrow) ≡ false = rw h apart in rw t refl

reserve-fresh :
    (limit : ℕ) (today : Date) (user : Uuid) (bytes : ℕ) (quota : UploadQuota)
    → rollover today quota ≡ record { day = some today; by_user = [] }
    → bytes ≤ limit
    → used (reserve limit today user bytes quota).1 user ≡ bytes
unfolding reserve
reserve-fresh limit today user bytes quota fresh fits =
    let self : (user == user) ≡ true = (nat_eq.equal_iff user user).1 refl in
    rw fresh (ground arith)

-- A refund after midnight of bytes that were reserved the day before is taken off what the user has
-- reserved on the new day, whose counter the reservation never entered.
pub release-next_day :
    (limit : ℕ) (today tomorrow : Date) (user : Uuid) (old new : ℕ) (quota : UploadQuota)
    → (today == tomorrow) ≡ false
    → new ≤ limit
    → used
        (release tomorrow user old
          (reserve limit tomorrow user new (reserve limit today user old quota).1).1)
        user
      ≡ new - old
unfolding release
release-next_day limit today tomorrow user old new quota apart fits =
    let first = (reserve limit today user old quota).1 in
    let q1 = (reserve limit tomorrow user new first).1 in
    let day : q1.day ≡ some tomorrow =
      (after-used limit tomorrow user (Call.reserved user new) first).0 in
    let started : (after limit today (Call.reserved user old) quota).day ≡ some today =
      (after-used limit today user (Call.reserved user old) quota).0 in
    let same = rollover-same tomorrow q1 day in
    let fresh : rollover tomorrow first ≡ record { day = some tomorrow; by_user = [] } =
      rollover-next today tomorrow first started apart in
    let counted : used q1 user ≡ new = reserve-fresh limit tomorrow user new first fresh fits in
    let level : used (rollover tomorrow q1) user ≡ new = ap (λ q. used q user) same ∙ counted in
    let self =
      get-put_self (rollover tomorrow q1).by_user user (used (rollover tomorrow q1) user - old) in
    ground arith
