-- ===== src/Governance/Actions/Nothing.antt =====
-- `build_apply_actions`: what the status of the report says of the plan.
use chat_chart.Base.{
  ◌≡◌, refl, false, ◌∷◌, [], ◌++◌, List, text_dec, any, arith, Option, not, ok, true, ◌↔◌, ◌∙◌,
  >>=-eq-ok, raise_if, ap, sym, ◌==◌, subst, is_empty, ok-injective,
}
use chat_chart.Governance.Compare.{
  report_of, Control, ControlId, checks_observed, admin_bypass, enforcement_backend, force_pushes,
  Compared, pull_request, is_drift, status_checks, merge_strategy, branch_controls, delete_branch,
  other_controls, discussions, squash_format, dependabot_updates, push_protection, secret_scanning,
  private_reporting, alerts, overall, is_unknown, compare_governance, is_compliant, Report,
  compliant, Status, compare_branch,
}
use chat_chart.Governance.Actions.{drifts, ActionPlan, build_apply_actions, Action}
use chat_chart.Governance.Policy.{Policy}
use chat_chart.Governance.Actions.Complete.{changeable, build_apply_actions-IsPlanOf}
use chat_chart.Governance.Inventory.{Inventory, Legacy}
use chat_chart.Governance.Actions.Coverage.{covers_control}
use chat_chart.Governance.Errors.{wrong_branch}

-- All controls, in the order in which `compare_governance` collects them.
abbrev all_ids : List ControlId
all_ids =
    admin_bypass ∷ enforcement_backend ∷ force_pushes ∷ pull_request ∷ status_checks
    ∷ checks_observed ∷ merge_strategy ∷ delete_branch ∷ discussions ∷ squash_format
    ∷ dependabot_updates ∷ push_protection ∷ secret_scanning ∷ private_reporting ∷ alerts ∷ []

any_drift :
    (controls : List Control)
    → drifts checks_observed controls ≡ false
    → any (λ id. drifts id controls) all_ids ≡ any (λ id. drifts id controls) changeable
any_drift controls h = ground arith

report_drifts :
    (policy : Policy) (inventory : Inventory) (compared : Compared)
    → any (λ id. drifts id (report_of policy inventory compared).controls) all_ids
      ≡ any
          (λ c. is_drift c.status)
          (branch_controls policy compared.values ++ other_controls policy inventory)
unfolding report_of drifts text_dec
report_drifts policy inventory compared = refl

overall-drift :
    (controls : List Control) (legacy : Option Legacy)
    → is_unknown (overall controls legacy) ≡ false
    → is_compliant (overall controls legacy) ≡ not (any (λ c. is_drift c.status) controls)
unfolding overall
overall-drift controls legacy h = ground arith

report_of-status :
    (policy : Policy) (inventory : Inventory) (compared : Compared)
    → is_unknown (report_of policy inventory compared).status ≡ false
    → is_compliant (report_of policy inventory compared).status
      ≡ not (
          any
            (λ c. is_drift c.status)
            (branch_controls policy compared.values ++ other_controls policy inventory))
unfolding report_of
report_of-status policy inventory compared h =
    overall-drift (branch_controls policy compared.values ++ other_controls policy inventory)
      compared.unmanaged_legacy h

report_of-drift :
    (policy : Policy) (inventory : Inventory) (compared : Compared)
    → is_unknown (report_of policy inventory compared).status ≡ false
    → drifts checks_observed (report_of policy inventory compared).controls ≡ false
    → is_compliant (report_of policy inventory compared).status
      ≡ not (any (λ id. drifts id (report_of policy inventory compared).controls) changeable)
report_of-drift policy inventory compared h o =
    report_of-status policy inventory compared h
    ∙ ap not (sym (report_drifts policy inventory compared) ∙ any_drift _ o)

compare_governance-drift :
    (policy : Policy) (inventory : Inventory) {r : Report}
    → compare_governance policy inventory ≡ ok r
    → is_unknown r.status ≡ false
    → drifts checks_observed r.controls ≡ false
    → is_compliant r.status ≡ not (any (λ id. drifts id r.controls) changeable)
unfolding compare_governance
compare_governance-drift policy inventory {r} h k o =
    let (_, _, h1) =
      >>=-eq-ok (raise_if (not (inventory.branch == policy.settings.target_branch)) wrong_branch) _
        h in
    let (compared, _, h2) =
      >>=-eq-ok (compare_branch policy.settings.enforcement_backend inventory) _ h1 in
    let same = ok-injective h2 in
    subst
      (λ q.
        is_unknown q.status ≡ false
        → drifts checks_observed q.controls ≡ false
        → is_compliant q.status ≡ not (any (λ id. drifts id q.controls) changeable))
      same (report_of-drift policy inventory compared) k o

-- A plan that was made holds no action exactly if the audit before it found the repository compliant.
pub build_apply_actions-empty_iff :
    (policy : Policy) (inventory : Inventory) {plan : ActionPlan}
    → build_apply_actions policy inventory ≡ ok plan
    → (plan.actions ≡ []) ↔ (plan.before_status ≡ compliant)
build_apply_actions-empty_iff policy inventory {plan} h =
    let p = build_apply_actions-IsPlanOf policy inventory {plan = plan} h in
    let same : is_empty plan.actions ≡ is_compliant plan.before_status =
      p.nothing
      ∙ sym (compare_governance-drift policy inventory {r = p.report} p.compares p.known p.observed)
      ∙ ap is_compliant (sym p.before) in
    (
      λ e. compliant_of plan.before_status (sym same ∙ ap is_empty e),
      λ e. empty_of plan.actions (same ∙ ap is_compliant e),
    )
  where
    compliant_of : (s : Status) → is_compliant s ≡ true → s ≡ compliant
    compliant_of s c = ground arith

    empty_of : (l : List Action) → is_empty l ≡ true → l ≡ []
    empty_of [] c = refl
    empty_of (a ∷ l) c = cc

-- Every control that the audit found to drift is verified by an action of the plan.
pub build_apply_actions-covers :
    (policy : Policy) (inventory : Inventory) {plan : ActionPlan} {r : Report}
    → build_apply_actions policy inventory ≡ ok plan
    → compare_governance policy inventory ≡ ok r
    → (id : ControlId) → drifts id r.controls ≡ true
    → covers_control id plan.actions ≡ true
build_apply_actions-covers policy inventory {plan} {r} h c id d =
    let p = build_apply_actions-IsPlanOf policy inventory {plan = plan} h in
    p.covered id (subst (λ q. drifts id q.controls ≡ true) (ok-injective (sym c ∙ p.compares)) d)
