-- ===== src/Examples/Uploading.antt =====
-- packages/server/src/uploads/upload-quota.ts with a limit of 100 bytes.
use ai_kanban.Prelude.{◌+◌, ◌-◌, ◌≤◌, ◌≡◌, ◌∷◌, [], List, refl, arith}
use ai_kanban.Server.UploadQuota.{new_quota, rollover, used, reserve, release}
use ai_kanban.Quotas.{Call, accepted_all, refunds_all, after_all-used, release-next_day}

abbrev calls : List Call
calls = Call.reserved 7 60 ∷ Call.reserved 7 60 ∷ Call.refunded 7 60 ∷ Call.reserved 7 90 ∷ []

-- The second call is refused.
lets_through : accepted_all 100 3 7 calls new_quota ≡ 150
unfolding reserve release rollover
lets_through = refl

start : used (rollover 3 new_quota) 7 ≤ 100
unfolding rollover
start = omega arith

after_all-used_example :
    used (rollover 3 new_quota) 7 + accepted_all 100 3 7 calls new_quota ≤ 100 + refunds_all 7 calls
after_all-used_example = after_all-used 100 3 7 calls new_quota start

-- The user has reserved 80 bytes on the new day, and is asked for 20 of them.
release-next_day_example :
    used (release 4 7 60 (reserve 100 4 7 80 (reserve 100 3 7 60 new_quota).1).1) 7 ≡ 80 - 60
release-next_day_example = release-next_day 100 3 4 7 60 80 new_quota refl (omega arith)
