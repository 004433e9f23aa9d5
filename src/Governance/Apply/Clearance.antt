-- ===== src/Governance/Apply/Clearance.antt =====
-- `execute_apply`: what holds before the first write.
use chat_chart.Base.{
  ◌≡◌, refl, Text, ◌⊎◌, ok, >>=-eq-ok, Bool, raise_if, not, false, ◌==◌, Result-cases, inl, true,
  arith, inr, repository_target, raise_if-eq-ok, subst, sym, ◌∙◌, ap, ok-injective, ◌>>◌,
}
use chat_chart.Governance.Policy.{Policy}
use chat_chart.Governance.Actions.{
  build_apply_actions, ActionPlan, is_some_compliant, status_of, actions_of,
}
use chat_chart.Governance.Apply.{execute_apply, prepare, Remote, refused}
use chat_chart.Governance.Inventory.{Inventory}
use chat_chart.Governance.Compare.{Report, compare_governance, is_unknown, checks_observed}
use chat_chart.Governance.Errors.{
  PolicyError, wrong_confirmation, unsafe_target, incomplete_audit, checks_not_observed,
}

-- The first audit is complete and finds each desired check, and the confirmed repository is the audited
-- one, under a name that is safe in an endpoint.
pub record IsCleared (policy : Policy) (inventory : Inventory) (confirmed : Text) : Type 0 where
  pub report : Report
  pub compares : compare_governance policy inventory ≡ ok report
  pub complete : is_unknown report.status ≡ false
  pub observed : is_some_compliant (status_of checks_observed report.controls) ≡ true
  pub safe : repository_target confirmed ≡ true
  pub confirms : confirmed ≡ report.repository

-- An audit that a plan may be built on.
record IsAudit (policy : Policy) (inventory : Inventory) (repository : Text) : Type 0 where
  report : Report
  compares : compare_governance policy inventory ≡ ok report
  complete : is_unknown report.status ≡ false
  observed : is_some_compliant (status_of checks_observed report.controls) ≡ true
  safe : repository_target report.repository ≡ true
  same : repository ≡ report.repository

of_not : (b : Bool) → not b ≡ false → b ≡ true
of_not true h = refl
of_not false h = cc

build_apply_actions-IsAudit :
    (policy : Policy) (inventory : Inventory) {plan : ActionPlan}
    → build_apply_actions policy inventory ≡ ok plan
    → IsAudit policy inventory plan.repository
unfolding build_apply_actions
build_apply_actions-IsAudit policy inventory h =
    let (r, e, h1) = >>=-eq-ok (compare_governance policy inventory) _ h in
    let (_, e1, h2) =
      >>=-eq-ok (raise_if (not (repository_target r.repository)) unsafe_target) _ h1 in
    let (_, e2, h3) = >>=-eq-ok (raise_if (is_unknown r.status) incomplete_audit) _ h2 in
    let (_, e3, h4) =
      >>=-eq-ok
        (raise_if (not (is_some_compliant (status_of checks_observed r.controls)))
          checks_not_observed)
        _ h3 in
    let (actions, _, h5) = >>=-eq-ok (actions_of policy inventory r.controls r.repository) _ h4 in
    record {
      report = r;
      compares = e;
      complete = raise_if-eq-ok _ _ e2;
      observed = of_not _ (raise_if-eq-ok _ _ e3);
      safe = of_not _ (raise_if-eq-ok _ _ e1);
      same = sym (ap (λ p. p.repository) (ok-injective h5));
    }

prepare-IsCleared :
    (policy : Policy) (inventory : Inventory) (confirmed : Text) {both : ActionPlan × Report}
    → prepare policy inventory confirmed ≡ ok both
    → IsCleared policy inventory confirmed
unfolding prepare
prepare-IsCleared policy inventory confirmed h =
    let (plan, e, h1) = >>=-eq-ok (build_apply_actions policy inventory) _ h in
    let (_, e0, _) =
      >>=-eq-ok
        (raise_if (not (confirmed == plan.repository)) wrong_confirmation
          >> compare_governance policy inventory)
        _ h1 in
    let (_, e1, _) =
      >>=-eq-ok (raise_if (not (confirmed == plan.repository)) wrong_confirmation) _ e0 in
    let audit = build_apply_actions-IsAudit policy inventory {plan = plan} e in
    let equal : confirmed ≡ plan.repository =
      ground (arith, raise_if-eq-ok (not (confirmed == plan.repository)) wrong_confirmation e1) in
    record {
      report = audit.report;
      compares = audit.compares;
      complete = audit.complete;
      observed = audit.observed;
      safe = subst (λ t. repository_target t ≡ true) (sym (equal ∙ audit.same)) audit.safe;
      confirms = equal ∙ audit.same;
    }

-- `execute_apply` goes on to write only if the first audit is complete, finds each desired check, and is
-- of the repository that the caller confirmed, which has a safe name. Else it refuses, and leaves the
-- remote as it was.
pub execute_apply-IsCleared :
    (policy : Policy) (G : Remote) (inventory : Inventory) (confirmed : Text) (s : G.State)
    → IsCleared policy inventory confirmed
      ⊎ ((x : PolicyError) × (execute_apply policy G inventory confirmed s ≡ (refused x, s)))
unfolding execute_apply
execute_apply-IsCleared policy G inventory confirmed s =
    elim (Result-cases (prepare policy inventory confirmed)) [
      | inl (both, c) ↦ inl (prepare-IsCleared policy inventory confirmed {both = both} c)
      | inr (x, c) ↦ inr (x, rw (c, execute_apply) refl)
    ]
