-- ===== src/Tests/Updates.antt =====
-- scripts/github_governance.py on a ruleset that the script wrote itself, and on a repository that needs
-- nothing.
use chat_chart.Base.{
  ◌≡◌, refl, true, false, ◌∷◌, [], Text, some, none, codes, ok, pos, entries, ◌↔◌, arith, bool, int,
  has_duplicates, Dict, text_dec,
}
use chat_chart.Governance.Ruleset.{ruleset_payload, payload_value, validate_update_state}
use chat_chart.Governance.Settings.{bad_branch}
use chat_chart.Governance.Inventory.{Ruleset, Rule, Inventory}
use chat_chart.Governance.Discovery.UpdateState.{managed_update_state}
use chat_chart.Governance.Discovery.RoundTrip.Methods.{sorted_methods}
use chat_chart.Governance.Discovery.Update.{
  IsUpdatable, kept, ruleset_payload-roundtrip, validate_update_state-IsUpdatable,
}
use chat_chart.Governance.Policy.Layers.{IsValidSettings}
use chat_chart.Governance.Compare.{
  Report, compare_governance, compliant, status_checks, managed_ruleset_name, text_values,
}
use chat_chart.Governance.Actions.{ActionPlan, build_apply_actions, drifts}
use chat_chart.Governance.Actions.Coverage.{covers_control}
use chat_chart.Governance.Actions.Nothing.{
  build_apply_actions-empty_iff, build_apply_actions-covers,
}
use chat_chart.Governance.Apply.{execute_apply, applied, begin, compliant_evidence}
use chat_chart.Governance.Apply.Idle.{execute_apply-idle}
use chat_chart.Tests.Governance.{settings, policy, inventory, stale}

settings-IsValid : IsValidSettings settings
unfolding has_duplicates bad_branch text_dec
settings-IsValid = record {
  safe_branch = refl;
  few_approvals = omega arith;
  approval_present = λ h. omega arith;
  has_checks = refl;
  distinct_checks = refl;
  named_checks = refl;
  known_title = refl;
  known_message = refl;
}

none-IsUpdatable : IsUpdatable none
none-IsUpdatable = record { integrations = refl; methods = refl }

abbrev managed : Ruleset
managed = record {
  id = pos 5;
  name = managed_ruleset_name;
  source = codes "acme/chart";
  source_type = codes "Repository";
  has_bypass_actors = bool false;
  update_state =
      some (managed_update_state (entries (payload_value (ruleset_payload settings none))));
}

managed-valid : validate_update_state managed settings ≡ ok (kept (ruleset_payload settings none))
managed-valid =
    (ruleset_payload-roundtrip settings none settings-IsValid none-IsUpdatable managed 4 refl
      refl).0

ruleset_payload-roundtrip_example :
    (validate_update_state managed settings ≡ ok (kept (ruleset_payload settings none)))
    × (ruleset_payload settings (some (kept (ruleset_payload settings none)))
        ≡ record (ruleset_payload settings none) {
          pull = record (ruleset_payload settings none).pull {
            methods = sorted_methods (ruleset_payload settings none).pull.methods;
          };
        })
ruleset_payload-roundtrip_example =
    ruleset_payload-roundtrip settings none settings-IsValid none-IsUpdatable managed 4 refl refl

validate_update_state-IsUpdatable_example :
    IsUpdatable (some (kept (ruleset_payload settings none)))
validate_update_state-IsUpdatable_example =
    validate_update_state-IsUpdatable managed settings managed-valid

abbrev rule : Text → Dict → Rule
rule name parameters = record {
  rule_type = name;
  ruleset_id = int (pos 5);
  source = codes "acme/chart";
  source_type = codes "Repository";
  parameters = parameters;
}

-- The repository under its managed ruleset.
abbrev settled : Inventory
settled = record inventory {
  effective_rules =
      rule (codes "non_fast_forward") []
      ∷ rule (codes "pull_request") (
          (codes "require_last_push_approval", bool false)
          ∷ (codes "required_approving_review_count", int (pos 1))
          ∷ [])
      ∷ rule (codes "required_status_checks") (
          (
            codes "contexts",
            text_values (codes "chart" ∷ codes "lint" ∷ codes "test" ∷ codes "types" ∷ []),
          )
          ∷ [])
      ∷ [];
  rulesets = managed ∷ [];
}

opened : Unit {0}
unfolding compare_governance build_apply_actions text_dec
opened = tt

settled_report : (r : Report) × (compare_governance policy settled ≡ ok r) × (r.status ≡ compliant)
unfolding opened
settled_report = (_, refl, refl)

settled_plan :
    (plan : ActionPlan) × (build_apply_actions policy settled ≡ ok plan)
    × (codes "acme/chart" ≡ plan.repository)
unfolding opened
settled_plan = (_, refl, refl)

new_report :
    (r : Report) × (compare_governance policy inventory ≡ ok r)
    × (drifts status_checks r.controls ≡ true)
unfolding opened drifts
new_report = (_, refl, refl)

new_plan : (plan : ActionPlan) × (build_apply_actions policy inventory ≡ ok plan)
unfolding opened
new_plan = (_, refl)

build_apply_actions-empty_iff_example :
    (new_plan.0.actions ≡ []) ↔ (new_plan.0.before_status ≡ compliant)
build_apply_actions-empty_iff_example = build_apply_actions-empty_iff policy inventory new_plan.1

build_apply_actions-covers_example : covers_control status_checks new_plan.0.actions ≡ true
build_apply_actions-covers_example =
    build_apply_actions-covers policy inventory new_plan.1 new_report.1 status_checks new_report.2

execute_apply-idle_example :
    execute_apply policy stale settled (codes "acme/chart") 0
    ≡ (applied (record (begin settled_plan.0 settled_report.0) { status = compliant_evidence }), 0)
execute_apply-idle_example =
    execute_apply-idle policy settled (codes "acme/chart") stale 0 settled_plan.1 settled_report.1
      settled_plan.2 settled_report.2
