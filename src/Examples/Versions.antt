-- ===== src/Examples/Versions.antt =====
-- packages/core/src/services/policy-service.ts at the example team.
use ai_kanban.Prelude.{◌≡◌, refl, arith, [], ◌∷◌, some, true, false}
use ai_kanban.Domain.Policy.{PolicyDocument, BoardPolicy}
use ai_kanban.Domain.Errors.{ok}
use ai_kanban.Db.State.{World}
use ai_kanban.Services.PolicyService.{
  apply, apply_tx, insert_version, clear_default, update_authority, retire_reasons,
  ensure_no_orphaned_role, get_active, role_keys, same_roles,
}
use ai_kanban.Policies.{IsStaffed, IsRetiring}
use ai_kanban.Policies.Applied.{apply-IsStaffed, get_active-apply}
use ai_kanban.Examples.Data.{deps, member, team, team_policy}
use ai_kanban.Prelude.{sort_by, insert_by}
use ai_kanban.Domain.Vocabulary.{ActorKind-discrete, TokenScope-discrete, Permission-discrete}
use ai_kanban.Policy.Engine.{grant, has_permission, evaluate_policy, evaluate_action}
use ai_kanban.Db.Tx.{run}
use ai_kanban.Db.Cards.{find_card}
use ai_kanban.Db.Rows.{
  find_board, get_default_board, get_active_policy, list_boards, list_service_tokens, insert_policy,
  set_default,
}
use ai_kanban.Services.Access.{
  accessible_card, require_board_access, can_access_board, has_membership, global_policy,
  active_policy,
}

-- The document drops the reason "parts" for another one.
abbrev next : PolicyDocument
next = record team_policy {
  waiting_reasons = record { key = "vendor"; label = "Vendor"; active = true } ∷ [];
}

abbrev version : BoardPolicy
version = record {
  id = 500;
  board_id = 1;
  config = record team_policy {
    waiting_reasons =
        record { key = "vendor"; label = "Vendor"; active = true }
        ∷ record { key = "parts"; label = "Parts"; active = false }
        ∷ [];
  };
  created_by = 7;
  created_at = 1000;
}

abbrev after : World
after = (apply deps member next team).1

applies : apply deps member next team ≡ (ok version, after)
unfolding apply apply_tx insert_version clear_default update_authority retire_reasons
    ensure_no_orphaned_role list_boards list_service_tokens insert_policy set_default same_roles
    accessible_card find_card require_board_access find_board can_access_board global_policy
    get_default_board get_active_policy sort_by insert_by has_permission grant has_membership
    ActorKind-discrete TokenScope-discrete Permission-discrete active_policy evaluate_policy
    evaluate_action run
applies = refl

apply-IsStaffed_example :
    IsStaffed (role_keys version.config) after.db
    × ((current : BoardPolicy) × (get_active_policy 1 team.db ≡ some current)
        × IsRetiring current.config.waiting_reasons next.waiting_reasons
            version.config.waiting_reasons)
apply-IsStaffed_example = apply-IsStaffed deps member next team after version applies

get_active-apply_example : (get_active deps after).0 ≡ ok version
get_active-apply_example =
    get_active-apply deps member next team after version (omega arith, tt) applies
