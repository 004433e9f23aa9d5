-- ===== src/Governance/Actions/Complete.antt =====
-- `build_apply_actions`: there is nothing to do exactly for a compliant report, and every drift is covered.
use chat_chart.Base.{
  ◌∷◌, ◌≡◌, refl, true, false, ◌++◌, List, Text, is_empty, not, any, ◌||◌, any-append, Bool, ◌&&◌,
  [], Option, all, ok, arith, >>=-eq-ok, raise_if, repository_target, some, none, raise_if-eq-ok,
  ok-injective, ◌∙◌, ap, sym, subst,
}
use chat_chart.Governance.Actions.{
  Action, listed, security_action, alerts_apply, drifts, reporting_apply, repository_action,
  branch_ids, dependabot_apply, ActionPlan, build_apply_actions, is_some_compliant, is_some_drift,
  status_of, actions_of, branch_actions,
}
use chat_chart.Governance.Policy.{Policy}
use chat_chart.Governance.Inventory.{Inventory}
use chat_chart.Governance.Compare.{
  ControlId, secret_scanning, Control, push_protection, alerts, private_reporting, merge_strategy,
  squash_format, discussions, delete_branch, admin_bypass, enforcement_backend, status_checks,
  force_pushes, pull_request, dependabot_updates, Status, Report, checks_observed,
  compare_governance, is_unknown,
}
use chat_chart.Governance.Actions.Coverage.{
  covers_control, is_empty-append, is_empty-security, is_empty-alerts, is_empty-reporting,
  is_empty-repository, is_empty-dependabot, covers-secret_scanning, covers-push_protection,
  covers-alerts, covers-private_reporting, covers-merge_strategy, covers-squash_format,
  covers-discussions, covers-delete_branch, covers-dependabot_updates, branch_actions-covers,
}
use chat_chart.Governance.Errors.{unsafe_target, incomplete_audit, checks_not_observed}

-- The controls that an action may change: all but the observation of the checks.
abbrev pub changeable : List ControlId
changeable =
    secret_scanning ∷ push_protection ∷ alerts ∷ private_reporting ∷ merge_strategy ∷ squash_format
    ∷ discussions ∷ delete_branch ∷ admin_bypass ∷ enforcement_backend ∷ status_checks
    ∷ force_pushes ∷ pull_request ∷ dependabot_updates ∷ []

not-or : (a b : Bool) → (not a && not b) ≡ not (a || b)
not-or true b = refl
not-or false b = refl

or_regroup : (a b c : Bool) → ((a || b) || c) ≡ (a || (b || c))
or_regroup true b c = refl
or_regroup false b c = refl

or_end : (a : Bool) → (a || false) ≡ a
or_end true = refl
or_end false = refl

module _ (policy : Policy) (inventory : Inventory) (controls : List Control)
    (repository : Text) where
  -- The actions around that of the branch.
  all_actions : List Action → List Action
  all_actions branch =
      listed (security_action controls repository)
      ++ (listed (alerts_apply controls repository)
          ++ (listed (reporting_apply controls repository)
              ++ (listed (repository_action controls policy.settings repository)
                  ++ (branch ++ listed (dependabot_apply controls policy.settings repository)))))

  is_empty-all_actions :
      (branch : List Action)
      → is_empty branch ≡ not (any (λ id. drifts id controls) branch_ids)
      → is_empty (all_actions branch) ≡ not (any (λ id. drifts id controls) changeable)
  unfolding all_actions
  is_empty-all_actions branch h =
      rw
        (
          is_empty-append, is_empty-append, is_empty-append, is_empty-append, is_empty-append,
          is_empty-security, is_empty-alerts, is_empty-reporting, is_empty-repository,
          is_empty-dependabot, h,
        )
        (simp (not-or, or_regroup, or_end))

  covers-all_actions :
      (id : ControlId) (branch : List Action)
      → covers_control id (all_actions branch) ≡ (
          covers_control id (listed (security_action controls repository))
          || (covers_control id (listed (alerts_apply controls repository))
              || (covers_control id (listed (reporting_apply controls repository))
                  || (covers_control id
                        (listed (repository_action controls policy.settings repository))
                      || (covers_control id branch
                          || covers_control id
                              (listed (dependabot_apply controls policy.settings repository)))))))
  unfolding all_actions
  covers-all_actions id branch =
      rw (any-append, any-append, any-append, any-append, any-append) refl

  module _ (branch : List Action)
      (h : any (λ j. drifts j controls) branch_ids ≡ true
        → all (λ j. covers_control j branch) branch_ids ≡ true) where
    -- Each drift is covered, if the branch's action covers those of the branch.
    drift-covered :
        (id : ControlId)
        → drifts id controls ≡ true
        → drifts checks_observed controls ≡ false
        → covers_control id (all_actions branch) ≡ true
    drift-covered secret_scanning d o =
        rw covers-all_actions (ground (arith, covers-secret_scanning controls repository d))
    drift-covered push_protection d o =
        rw covers-all_actions (ground (arith, covers-push_protection controls repository d))
    drift-covered alerts d o =
        rw covers-all_actions (ground (arith, covers-alerts controls repository d))
    drift-covered private_reporting d o =
        rw covers-all_actions (ground (arith, covers-private_reporting controls repository d))
    drift-covered merge_strategy d o =
        rw covers-all_actions
          (ground (arith, covers-merge_strategy controls repository policy.settings d))
    drift-covered squash_format d o =
        rw covers-all_actions
          (ground (arith, covers-squash_format controls repository policy.settings d))
    drift-covered discussions d o =
        rw covers-all_actions
          (ground (arith, covers-discussions controls repository policy.settings d))
    drift-covered delete_branch d o =
        rw covers-all_actions
          (ground (arith, covers-delete_branch controls repository policy.settings d))
    drift-covered dependabot_updates d o =
        rw covers-all_actions
          (ground (arith, covers-dependabot_updates controls repository policy.settings d))
    drift-covered checks_observed d o = cc
    drift-covered admin_bypass d o = rw covers-all_actions (ground (arith, h (ground arith)))
    drift-covered enforcement_backend d o = rw covers-all_actions (ground (arith, h (ground arith)))
    drift-covered status_checks d o = rw covers-all_actions (ground (arith, h (ground arith)))
    drift-covered force_pushes d o = rw covers-all_actions (ground (arith, h (ground arith)))
    drift-covered pull_request d o = rw covers-all_actions (ground (arith, h (ground arith)))

-- A plan for an audited inventory: the report it is made from, and its actions.
pub record IsPlanOf (policy : Policy) (inventory : Inventory) (plan : ActionPlan) : Type 0 where
  pub report : Report
  pub compares : compare_governance policy inventory ≡ ok report
  pub before : plan.before_status ≡ report.status
  pub known : is_unknown report.status ≡ false
  pub observed : drifts checks_observed report.controls ≡ false
  pub nothing : is_empty plan.actions ≡ not (any (λ id. drifts id report.controls) changeable)
  pub covered :
      (id : ControlId) → drifts id report.controls ≡ true → covers_control id plan.actions ≡ true

not_drift : (s : Option Status) → not (is_some_compliant s) ≡ false → is_some_drift s ≡ false
not_drift none h = refl
not_drift (some s) h = ground arith

pub build_apply_actions-IsPlanOf :
    (policy : Policy) (inventory : Inventory) {plan : ActionPlan}
    → build_apply_actions policy inventory ≡ ok plan
    → IsPlanOf policy inventory plan
unfolding build_apply_actions drifts all_actions
build_apply_actions-IsPlanOf policy inventory {plan} h =
    let (r, e, h1) = >>=-eq-ok (compare_governance policy inventory) _ h in
    let (_, e1, h2) =
      >>=-eq-ok (raise_if (not (repository_target r.repository)) unsafe_target) _ h1 in
    let (_, e2, h3) = >>=-eq-ok (raise_if (is_unknown r.status) incomplete_audit) _ h2 in
    let (_, e3, h4) =
      >>=-eq-ok
        (raise_if (not (is_some_compliant (status_of checks_observed r.controls)))
          checks_not_observed)
        _ h3 in
    let (actions, e4, h5) = >>=-eq-ok (actions_of policy inventory r.controls r.repository) _ h4 in
    let (branch, e5, h6) =
      >>=-eq-ok (branch_actions policy inventory r.controls r.repository) _ e4 in
    let (empty, covers) =
      branch_actions-covers policy inventory r.controls r.repository {actions = branch} e5 in
    let observed = not_drift (status_of checks_observed r.controls) (raise_if-eq-ok _ _ e3) in
    let same : all_actions policy inventory r.controls r.repository branch ≡ plan.actions =
      ok-injective h6 ∙ ap (λ p. p.actions) (ok-injective h5) in
    record {
      report = r;
      compares = e;
      before = sym (ap (λ p. p.before_status) (ok-injective h5));
      known = raise_if-eq-ok _ _ e2;
      observed = observed;
      nothing =
          subst (λ l. is_empty l ≡ not (any (λ id. drifts id r.controls) changeable)) same
            (is_empty-all_actions policy inventory r.controls r.repository branch empty);
      covered = λ id d.
          subst (λ l. covers_control id l ≡ true) same
            (drift-covered policy inventory r.controls r.repository branch covers id d observed);
    }
