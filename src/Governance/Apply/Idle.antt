-- ===== src/Governance/Apply/Idle.antt =====
-- `execute_apply` on a repository that needs nothing.
use chat_chart.Base.{◌≡◌, refl, [], Text, ok, arith, ok-injective, sym, ◌∙◌, ap, subst}
use chat_chart.Governance.Policy.{Policy}
use chat_chart.Governance.Inventory.{Inventory}
use chat_chart.Governance.Apply.{
  prepare, execute_apply, apply_loop, Remote, applied, begin, compliant_evidence, finish, enough,
  Evidence,
}
use chat_chart.Governance.Actions.{ActionPlan, build_apply_actions}
use chat_chart.Governance.Compare.{Report, compare_governance, compliant, is_compliant}
use chat_chart.Governance.Actions.Complete.{build_apply_actions-IsPlanOf}
use chat_chart.Governance.Actions.Nothing.{build_apply_actions-empty_iff}

finish-compliant :
    (e : Evidence)
    → e.after.status ≡ compliant
    → finish e ≡ applied (record e { status = compliant_evidence })
unfolding finish
finish-compliant e c = rw (ap is_compliant c) refl

module _ (policy : Policy) (inventory : Inventory) (confirmed : Text) where
  prepare-eq :
      {plan : ActionPlan} {r : Report}
      → build_apply_actions policy inventory ≡ ok plan
      → compare_governance policy inventory ≡ ok r
      → confirmed ≡ plan.repository
      → prepare policy inventory confirmed ≡ ok (plan, r)
  unfolding prepare
  prepare-eq {plan} {r} h c e = rw (h, c) (ground arith)

  -- If the plan is made, the confirmed repository is the one of the plan, and the audit before it found the
  -- repository compliant, then `execute_apply` succeeds with the evidence of that audit, and leaves the
  -- remote as it was.
  pub execute_apply-idle :
      (G : Remote) (s : G.State) {plan : ActionPlan} {r : Report}
      → build_apply_actions policy inventory ≡ ok plan
      → compare_governance policy inventory ≡ ok r
      → confirmed ≡ plan.repository
      → r.status ≡ compliant
      → execute_apply policy G inventory confirmed s
        ≡ (applied (record (begin plan r) { status = compliant_evidence }), s)
  unfolding execute_apply apply_loop begin
  execute_apply-idle G s {plan} {r} h c e done =
      let p = build_apply_actions-IsPlanOf policy inventory {plan = plan} h in
      let same : p.report ≡ r = ok-injective (sym p.compares ∙ c) in
      let nothing : plan.actions ≡ [] =
        (build_apply_actions-empty_iff policy inventory {plan = plan} h).1
          (p.before ∙ ap (λ q. q.status) same ∙ done) in
      rw (prepare-eq {plan = plan} {r = r} h c e, execute_apply)
        (subst
          (λ l.
            apply_loop policy G enough plan l (begin plan r) s
            ≡ (applied (record (begin plan r) { status = compliant_evidence }), s))
          (sym nothing) (ap (λ o. (o, s)) (finish-compliant (begin plan r) done)))
