-- ===== src/Governance/Apply.antt =====
-- scripts/github_governance.py: `_gh_write_action`, `_verify_action` and `execute_apply`.
-- `Remote` stands for GitHub and the `gh` program behind `runner` and `discoverer`: an unknown state
-- that a write may change, and that a read may observe.
pub mod Loop
pub mod Clearance
pub mod Idle
pub mod Writes
pub mod Ends
pub mod Rounds
use chat_chart.Base.{
  ℕ, zero, suc, Bool, false, not, ◌||◌, List, [], ◌∷◌, ◌++◌, ok, err, ◌>>=◌, ◌>>◌, if◌then◌else◌,
  ◌==◌, nat_eq, any, Text, all, raise_if, is_empty, true,
}
use chat_chart.Governance.Actions.{
  status_of, ActionId, ActionPlan, Action, build_apply_actions, is_some_compliant, branch_ruleset,
  secret_scanning_action, repository_settings, alerts_action, reporting_action, dependabot_action,
}
use chat_chart.Governance.Policy.{Policy}
use chat_chart.Governance.Compare.{is_compliant, Report, compare_governance}
use chat_chart.Governance.Errors.{
  PolicyError, wrong_confirmation, key_error, type_error, os_error, unicode_error,
}
use chat_chart.Governance.Inventory.{Inventory}
use chat_chart.Governance.Settings.{M}

pub data WriteOutcome : Type 0 where
  could_not_run : WriteOutcome
  -- A `UnicodeDecodeError` on the output of the write.
  undecodable : WriteOutcome
  exited : (returncode : ℕ) → WriteOutcome

pub record Remote : Type 1 where
  pub State : Type 0
  pub write : Action → State → WriteOutcome × State
  pub discover : (repository branch : Text) → State → M Inventory × State

-- Actions have the same id: an id's text is spelled by its constructor.
unfoldable pub action_eq : ActionId → ActionId → Bool
action_eq branch_ruleset branch_ruleset = true
action_eq secret_scanning_action secret_scanning_action = true
action_eq repository_settings repository_settings = true
action_eq alerts_action alerts_action = true
action_eq reporting_action reporting_action = true
action_eq dependabot_action dependabot_action = true
action_eq _ _ = false

pub data Phase : Type 0 where
  write_phase read_back verification replanning : Phase

pub data FailedAction : Type 0 where
  action : ActionId → FailedAction
  final_audit : FailedAction

pub data EvidenceStatus : Type 0 where
  compliant_evidence applying : EvidenceStatus
  failed : FailedAction → Phase → EvidenceStatus

pub record Evidence : Type 0 where
  pub before : Report
  pub after : Report
  pub attempted : List ActionId
  pub verified : List ActionId
  pub repository : Text
  pub target_branch : Text
  pub status : EvidenceStatus

-- How `execute_apply` ends: its evidence, an `ApplyFailure` with the evidence so far, an exception raised
-- before the first write, or an exception that is no `PolicyError`, raised behind a write, which loses
-- the evidence that `crashed` holds. `out_of_fuel` is no end of the program.
pub data Outcome : Type 0 where
  applied : Evidence → Outcome
  apply_failure : Evidence → Outcome
  refused : PolicyError → Outcome
  crashed : PolicyError → Evidence → Outcome
  out_of_fuel : Outcome

-- `action["id"] in attempted`
unfoldable pub attempted_in : ActionId → List ActionId → Bool
unfolding action_eq
attempted_in id ids = any (action_eq id) ids

-- `_raise_apply_failure`
unfoldable pub raise_failure : Evidence → FailedAction → Phase → Outcome
raise_failure evidence id phase = apply_failure (record evidence { status = failed id phase })

-- `except PolicyError`
unfoldable pub caught : PolicyError → Bool
caught (key_error _) = false
caught type_error = false
caught os_error = false
caught unicode_error = false
caught _ = true

-- A handler that turns a `PolicyError` into the failure of an action.
unfoldable pub fail_with : PolicyError → Evidence → FailedAction → Phase → Outcome
unfolding caught raise_failure
fail_with x evidence id phase =
    if caught x then raise_failure evidence id phase else crashed x evidence

-- `_verify_action`
unfoldable pub verify_action : Action → Report → Bool
unfolding status_of
verify_action a report =
    all (λ id. is_some_compliant (status_of id report.controls)) a.verify_controls

unfoldable pub write_succeeded : WriteOutcome → Bool
write_succeeded could_not_run = false
write_succeeded undecodable = false
write_succeeded (exited returncode) = nat_eq returncode 0

-- How a write that did not succeed ends the run: only a `PolicyError` is caught.
unfoldable pub write_failure : WriteOutcome → Evidence → ActionId → Outcome
unfolding raise_failure
write_failure could_not_run tried id = raise_failure tried (action id) write_phase
write_failure (exited returncode) tried id = raise_failure tried (action id) write_phase
write_failure undecodable tried id = crashed unicode_error tried

-- The end of `execute_apply`, when no action is left.
unfoldable pub finish : Evidence → Outcome
unfolding raise_failure
finish evidence =
    if is_compliant evidence.after.status
    then applied (record evidence { status = compliant_evidence })
    else raise_failure evidence final_audit verification

-- What the loop goes on with.
pub data Round : Type 0 where
  stop : Outcome → Round
  next : ActionPlan → Evidence → Round

-- The evidence before the loop.
unfoldable pub begin : ActionPlan → Report → Evidence
begin plan before = record {
  before = before;
  after = before;
  attempted = [];
  verified = [];
  repository = plan.repository;
  target_branch = plan.target_branch;
  status = if is_empty plan.actions then compliant_evidence else applying;
}

-- As many rounds as there are actions, and the one that finds an action attempted before.
abbrev pub enough : ℕ
enough = 7

module _ (policy : Policy) where
  -- The new plan behind a verified action, for the same target.
  unfoldable pub replan : Action → Evidence → Inventory → Round
  unfolding build_apply_actions raise_failure fail_with
  replan a evidence updated = elim (build_apply_actions policy updated) [
    | err x ↦ stop (fail_with x evidence (action a.id) replanning)
    | ok plan ↦
        if not (plan.repository == evidence.repository)
          || not (plan.target_branch == evidence.target_branch)
        then stop (raise_failure evidence (action a.id) replanning)
        else next plan evidence
  ]

  -- The verification of an action by the report behind it.
  unfoldable pub verify_and_replan : Action → Evidence → Inventory → Report → Round
  unfolding verify_action replan raise_failure
  verify_and_replan a evidence updated report =
      if verify_action a report
      then replan a
          (record evidence { after = report; verified = evidence.verified ++ (a.id ∷ []) }) updated
      else stop (raise_failure (record evidence { after = report }) (action a.id) verification)

  -- The part of the loop's body behind the read-back.
  unfoldable pub check_back : Action → Evidence → M Inventory → Round
  unfolding compare_governance verify_and_replan fail_with
  check_back a evidence (err x) = stop (fail_with x evidence (action a.id) read_back)
  check_back a evidence (ok updated) = elim (compare_governance policy updated) [
    | err x ↦ stop (fail_with x evidence (action a.id) verification)
    | ok report ↦ verify_and_replan a evidence updated report
  ]

  -- What comes before the loop: the plan, the confirmation of its target, and the first report.
  unfoldable pub prepare : Inventory → Text → M (ActionPlan × Report)
  prepare inventory confirmed = build_apply_actions policy inventory >>= λ plan.
      raise_if (not (confirmed == plan.repository)) wrong_confirmation
      >> compare_governance policy inventory
      >>= λ before. let both : M (ActionPlan × Report) = ok (plan, before) in both

  module _ (G : Remote) where
    -- The write of an action, and the read-back if it succeeds.
    unfoldable pub write_and_read : ActionPlan → Action → Evidence → G.State → Round × G.State
    unfolding write_succeeded write_failure check_back
    write_and_read plan a tried s =
        let (outcome, s') = G.write a s in
        let (found, s'') = G.discover plan.repository plan.target_branch s' in
        if write_succeeded outcome
        then (check_back a tried found, s'')
        else (stop (write_failure outcome tried a.id), s')

    -- One round on the first action of the plan.
    unfoldable pub attempt : ActionPlan → Action → Evidence → G.State → Round × G.State
    unfolding attempted_in write_and_read
    attempt plan a evidence s =
        if attempted_in a.id evidence.attempted
        then (stop (raise_failure evidence (action a.id) replanning), s)
        else write_and_read plan a
            (record evidence { attempted = evidence.attempted ++ (a.id ∷ []) }) s

    -- The `while plan["actions"]` loop.
    unfoldable pub apply_loop :
        ℕ → ActionPlan → List Action → Evidence → G.State → Outcome × G.State
    unfolding attempt finish
    apply_loop fuel plan [] evidence s = (finish evidence, s)
    apply_loop zero plan (a ∷ rest) evidence s = (out_of_fuel, s)
    apply_loop (suc fuel) plan (a ∷ rest) evidence s =
        let (round, s') = attempt plan a evidence s in
        elim round [
          | stop outcome ↦ (outcome, s')
          | next plan' evidence' ↦ apply_loop fuel plan' plan'.actions evidence' s'
        ]

    -- `execute_apply`
    unfoldable pub execute_apply : Inventory → Text → G.State → Outcome × G.State
    execute_apply inventory confirmed s = elim (prepare inventory confirmed) [
      | err e ↦ (refused e, s)
      | ok (plan, before) ↦ apply_loop enough plan plan.actions (begin plan before) s
    ]
