-- ===== src/Governance/Actions.antt =====
-- scripts/github_governance.py: `_apply_action` to `build_apply_actions`.
pub mod Coverage
pub mod Complete
pub mod Nothing
use chat_chart.Governance.Settings.{
  dependabot, renovate, rulesets, legacy_branch_protection, Settings, M,
}
use chat_chart.Governance.Compare.{
  drift, compliant, Status, Control, compare_governance, managed_repository_ruleset, id_text,
  ControlId, admin_bypass, secret_scanning, private_reporting, alerts, enforcement_backend,
  dependabot_updates, push_protection, merge_strategy, status_checks, force_pushes, squash_format,
  pull_request, is_unknown, discussions, delete_branch, checks_observed, is_compliant, is_drift,
}
use chat_chart.Base.{
  ◌/◌, ◌%◌, ℕ, zero, suc, ◌+◌, Bool, true, false, not, Option, none, some, List, [], ◌∷◌, ◌++◌, ok,
  err, ◌>>=◌, ◌>>◌, if◌then◌else◌, ◌==◌, Text, ℤ, Value, Dict, sort_by, codes, obj, pos, text_le,
  repository_target, sorted, negsuc, field, is_empty, bool, raise_if, str, any, end, from_entries,
  ltb, decimal,
}
use chat_chart.Governance.Ruleset.{ruleset_payload, Payload, validate_update_state}
use chat_chart.Governance.Policy.{Policy}
use chat_chart.Governance.Inventory.{Inventory, Ruleset}
use chat_chart.Governance.Errors.{
  unsafe_target, incomplete_audit, checks_not_observed, legacy_not_implemented,
}

pub data ActionId : Type 0 where
  branch_ruleset secret_scanning_action repository_settings : ActionId
  alerts_action reporting_action dependabot_action : ActionId

pub data Method : Type 0 where
  post put patch delete : Method

-- What an action sends.
pub data Body : Type 0 where
  no_body : Body
  fields : Dict → Body
  payload : Payload → Body

pub record Action : Type 0 where
  pub id : ActionId
  pub method : Method
  pub endpoint : Text
  pub body : Body
  pub verify_controls : List ControlId
  pub side_effects : List Text

-- `_apply_action`
unfoldable pub apply_action : ActionId → Method → Text → Body → List ControlId → List Text → Action
unfolding sort_by id_text text_le sorted
apply_action id method endpoint body verify side_effects = record {
  id = id;
  method = method;
  endpoint = endpoint;
  body = body;
  verify_controls = sort_by (λ a b. text_le (id_text a) (id_text b)) verify;
  side_effects = sorted side_effects;
}

-- `controls[id]["status"]`, or `controls.get(id, {}).get("status")`.
unfoldable pub status_of : ControlId → List Control → Option Status
unfolding id_text
status_of id [] = none
status_of id (c ∷ cs) = if id_text c.id == id_text id then some c.status else status_of id cs

abbrev pub is_some_drift : Option Status → Bool
is_some_drift none = false
is_some_drift (some s) = is_drift s

abbrev pub is_some_compliant : Option Status → Bool
is_some_compliant none = false
is_some_compliant (some s) = is_compliant s

unfoldable pub drifts : ControlId → List Control → Bool
unfolding status_of
drifts id controls = is_some_drift (status_of id controls)

-- `repos/{repository}` and a path below it.
abbrev pub endpoint_of : Text → Text → Text
endpoint_of repository rest = codes "repos/" ++ (repository ++ rest)

abbrev pub int_text : ℤ → Text
int_text (pos n) = decimal n
int_text (negsuc n) = b'-' ∷ decimal (suc n)

-- `_ruleset_apply_action`
unfoldable pub ruleset_action : Settings → Text → Option Ruleset → M Action
unfolding apply_action ruleset_payload decimal
ruleset_action s repository none = ok (
    apply_action branch_ruleset post (endpoint_of repository (codes "/rulesets"))
      (payload (ruleset_payload s none))
      (admin_bypass ∷ enforcement_backend ∷ status_checks ∷ force_pushes ∷ pull_request ∷ [])
      (codes "target_branch_merge_requirements_change_immediately" ∷ []))
ruleset_action s repository (some managed) = do
  state ← validate_update_state managed s
  ok (
      apply_action branch_ruleset put
        (endpoint_of repository (codes "/rulesets/" ++ int_text managed.id))
        (payload (ruleset_payload s (some state)))
        (admin_bypass ∷ enforcement_backend ∷ status_checks ∷ force_pushes ∷ pull_request ∷ [])
        (codes "target_branch_merge_requirements_change_immediately" ∷ []))

-- What the `if` blocks of an action collect: fields, controls to verify, side effects.
pub record Part : Type 0 where
  pub values : Dict
  pub verify : List ControlId
  pub effects : List Text

-- One `if` block.
abbrev part : Bool → ControlId → Dict → List Text → Part
part true id values effects = record { values = values; verify = id ∷ []; effects = effects }
part false id values effects = record { values = []; verify = []; effects = [] }

infixr 60 ◌<+>◌
abbrev ◌<+>◌ : Part → Part → Part
p <+> q = record {
  values = p.values ++ q.values;
  verify = p.verify ++ q.verify;
  effects = p.effects ++ q.effects;
}

abbrev status_field : Value
status_field = obj (field (codes "status") (str (codes "enabled")) end)

-- `_security_apply_action`
unfoldable pub security_action : List Control → Text → Option Action
unfolding apply_action drifts
security_action controls repository =
    let parts =
      part (drifts secret_scanning controls) secret_scanning
        ((codes "secret_scanning", status_field) ∷ [])
        (codes "secret_scanning_alerts_may_be_created" ∷ [])
      <+> part (drifts push_protection controls) push_protection
          ((codes "secret_scanning_push_protection", status_field) ∷ [])
          (codes "pushes_containing_detected_secrets_are_rejected" ∷ []) in
    if is_empty parts.values
    then none
    else some (
        apply_action secret_scanning_action patch (endpoint_of repository [])
          (fields ((codes "security_and_analysis", obj (from_entries parts.values)) ∷ []))
          parts.verify parts.effects)

-- `_repository_apply_action`
unfoldable pub repository_action : List Control → Settings → Text → Option Action
unfolding apply_action drifts
repository_action controls s repository =
    let parts =
      part (drifts merge_strategy controls) merge_strategy
        ((codes "allow_merge_commit", bool false)
          ∷ (codes "allow_rebase_merge", bool false)
          ∷ (codes "allow_squash_merge", bool true)
          ∷ [])
        (codes "available_pull_request_merge_methods_change_immediately" ∷ [])
      <+> part (drifts squash_format controls) squash_format
          ((codes "squash_merge_commit_message", str s.squash_message)
            ∷ (codes "squash_merge_commit_title", str s.squash_title)
            ∷ [])
          (codes "future_squash_commit_defaults_change" ∷ [])
      <+> part (drifts discussions controls) discussions
          ((codes "has_discussions", bool s.discussions_enabled) ∷ [])
          (codes "repository_discussions_availability_changes" ∷ [])
      <+> part (drifts delete_branch controls) delete_branch
          ((codes "delete_branch_on_merge", bool s.delete_branch_on_merge) ∷ [])
          (if s.delete_branch_on_merge
            then codes "future_merged_head_branches_are_deleted" ∷ []
            else []) in
    if is_empty parts.values
    then none
    else some (
        apply_action repository_settings patch (endpoint_of repository []) (fields parts.values)
          parts.verify parts.effects)

-- `_vulnerability_alerts_apply_action`
unfoldable pub alerts_apply : List Control → Text → Option Action
unfolding apply_action drifts
alerts_apply controls repository =
    if drifts alerts controls
    then some (
        apply_action alerts_action put (endpoint_of repository (codes "/vulnerability-alerts"))
          no_body (alerts ∷ []) (codes "dependabot_vulnerability_alerts_may_be_created" ∷ []))
    else none

-- `_private_reporting_apply_action`
unfoldable pub reporting_apply : List Control → Text → Option Action
unfolding apply_action drifts
reporting_apply controls repository =
    if drifts private_reporting controls
    then some (
        apply_action reporting_action put
          (endpoint_of repository (codes "/private-vulnerability-reporting")) no_body
          (private_reporting ∷ []) (codes "private_vulnerability_reports_can_be_submitted" ∷ []))
    else none

-- `_dependabot_apply_action`
unfoldable pub dependabot_apply : List Control → Settings → Text → Option Action
unfolding apply_action drifts
dependabot_apply controls s repository =
    if drifts dependabot_updates controls
    then some (elim s.dependency_update_provider [
      | dependabot ↦
          apply_action dependabot_action put
            (endpoint_of repository (codes "/automated-security-fixes")) no_body
            (dependabot_updates ∷ [])
            (codes "dependabot_security_pull_requests_may_be_created" ∷ [])
      | renovate ↦
          apply_action dependabot_action delete
            (endpoint_of repository (codes "/automated-security-fixes")) no_body
            (dependabot_updates ∷ []) (codes "dependabot_security_updates_are_disabled" ∷ [])
    ])
    else none

abbrev pub listed : Option Action → List Action
listed none = []
listed (some a) = a ∷ []

abbrev pub branch_ids : List ControlId
branch_ids = admin_bypass ∷ enforcement_backend ∷ status_checks ∷ force_pushes ∷ pull_request ∷ []

-- The action of the branch, if one of its controls drifts.
unfoldable pub branch_actions : Policy → Inventory → List Control → Text → M (List Action)
unfolding ruleset_action drifts managed_repository_ruleset
branch_actions policy inventory controls repository =
    if any (λ id. drifts id controls) branch_ids
    then elim policy.settings.enforcement_backend [
      | legacy_branch_protection ↦ err legacy_not_implemented
      | rulesets ↦ managed_repository_ruleset inventory >>= λ managed.
          ruleset_action policy.settings repository managed >>= λ a. ok (a ∷ [])
    ]
    else ok []

pub record ActionPlan : Type 0 where
  pub actions : List Action
  pub before_status : Status
  pub repository : Text
  pub target_branch : Text

-- The actions, in the order of the plan.
unfoldable pub actions_of : Policy → Inventory → List Control → Text → M (List Action)
unfolding security_action alerts_apply reporting_apply repository_action branch_actions
    dependabot_apply
actions_of policy inventory controls repository = do
  branch ← branch_actions policy inventory controls repository
  ok (
      listed (security_action controls repository)
      ++ (listed (alerts_apply controls repository)
          ++ (listed (reporting_apply controls repository)
              ++ (listed (repository_action controls policy.settings repository)
                  ++ (branch ++ listed (dependabot_apply controls policy.settings repository))))))

-- `build_apply_actions`
unfoldable pub build_apply_actions : Policy → Inventory → M ActionPlan
unfolding compare_governance repository_target status_of actions_of
build_apply_actions policy inventory = do
  report ← compare_governance policy inventory
  raise_if (not (repository_target report.repository)) unsafe_target
  raise_if (is_unknown report.status) incomplete_audit
  raise_if (not (is_some_compliant (status_of checks_observed report.controls))) checks_not_observed
  actions ← actions_of policy inventory report.controls report.repository
  ok (record {
    actions = actions;
    before_status = report.status;
    repository = report.repository;
    target_branch = policy.settings.target_branch;
  })
