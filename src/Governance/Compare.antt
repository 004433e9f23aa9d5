-- ===== src/Governance/Compare.antt =====
-- scripts/github_governance.py: `_control` to `compare_governance`.
use chat_chart.Base.{
  Bool, true, false, not, ◌&&◌, ◌||◌, Option, none, some, List, [], ◌∷◌, ◌++◌, ok, err, ◌>>=◌, ◌>>◌,
  if◌then◌else◌, ◌==◌, text_le, keep_if, Text, sort_by, lookup, Value, sorted, contains, any, Dict,
  arr, codes, casefold, bool, obj, null, raise_if, from_items, field, str, end, is_none, int, pos,
}
use chat_chart.Governance.Inventory.{
  Inventory, Legacy, has_unknown, Rule, Ruleset, absent, value_eq, unknown_value, unknown_text,
  configured, unavailable,
}
use chat_chart.Governance.Settings.{Backend, M, Settings, rulesets, legacy_branch_protection}
use chat_chart.Governance.Policy.{Policy, text_items}
use chat_chart.Governance.Errors.{duplicate_managed_ruleset, duplicate_rules, wrong_branch}
use chat_chart.Governance.Settings.{rulesets, legacy_branch_protection, renovate, dependabot}

pub data ControlId : Type 0 where
  admin_bypass enforcement_backend force_pushes pull_request status_checks checks_observed :
      ControlId
  delete_branch discussions merge_strategy squash_format : ControlId
  dependabot_updates private_reporting push_protection secret_scanning alerts : ControlId

unfoldable pub id_text : ControlId → Text
id_text admin_bypass = codes "branch.admin_bypass_allowed"
id_text enforcement_backend = codes "branch.enforcement_backend"
id_text force_pushes = codes "branch.force_pushes_allowed"
id_text pull_request = codes "branch.pull_request"
id_text status_checks = codes "branch.required_status_checks"
id_text checks_observed = codes "branch.required_status_checks_observed"
id_text delete_branch = codes "repository.delete_branch_on_merge"
id_text discussions = codes "repository.discussions_enabled"
id_text merge_strategy = codes "repository.merge_strategy"
id_text squash_format = codes "repository.squash_commit_format"
id_text dependabot_updates = codes "security.dependabot_security_updates"
id_text private_reporting = codes "security.private_vulnerability_reporting"
id_text push_protection = codes "security.push_protection"
id_text secret_scanning = codes "security.secret_scanning"
id_text alerts = codes "security.vulnerability_alerts"

pub data Status : Type 0 where
  unknown compliant drift : Status

abbrev pub is_unknown : Status → Bool
is_unknown unknown = true
is_unknown _ = false

abbrev pub is_compliant : Status → Bool
is_compliant compliant = true
is_compliant _ = false

abbrev pub is_drift : Status → Bool
is_drift drift = true
is_drift _ = false

pub record Control : Type 0 where
  pub id : ControlId
  pub current : Value
  pub desired : Value
  pub refs : List Text
  pub status : Status

unfoldable pub control_status : Value → Value → Status
unfolding has_unknown value_eq
control_status current desired =
    if has_unknown current then unknown else if value_eq current desired then compliant else drift

-- `_control`
unfoldable pub control : ControlId → Value → Value → List Text → Control
unfolding control_status sorted
control id current desired refs = record {
  id = id;
  current = current;
  desired = desired;
  refs = sorted refs;
  status = control_status current desired;
}

-- `_single_rule`
unfoldable pub single_rule : List Rule → Text → M (Option Rule)
unfolding keep_if
single_rule rules rule_type = at_most_one (keep_if (λ rule. rule.rule_type == rule_type) rules)
  where
    at_most_one : List Rule → M (Option Rule)
    at_most_one [] = ok none
    at_most_one (rule ∷ []) = ok (some rule)
    at_most_one (rule ∷ other ∷ rest) = err (duplicate_rules rule_type)

abbrev pub managed_ruleset_name : Text
managed_ruleset_name = codes "ai-dev-foundation: branch-governance"

-- `_managed_repository_ruleset`
unfoldable pub managed_repository_ruleset : Inventory → M (Option Ruleset)
unfolding keep_if casefold
managed_repository_ruleset inventory = at_most_one (
    keep_if
      (λ r.
        r.name == managed_ruleset_name
        && r.source_type == codes "Repository"
        && casefold r.source == casefold inventory.repository.full_name)
      inventory.rulesets)
  where
    at_most_one : List Ruleset → M (Option Ruleset)
    at_most_one [] = ok none
    at_most_one (r ∷ []) = ok (some r)
    at_most_one (r ∷ other ∷ rest) = err duplicate_managed_ruleset

-- `x.get(key, UNKNOWN)`
unfoldable pub get_known : Text → Dict → Value
unfolding lookup
get_known k d = elim (lookup k d) [ none ↦ unknown_value | some v ↦ v ]

abbrev pub pull_value : Value → Value → Value
pull_value last_push count = obj (
    field (codes "require_last_push_approval") last_push
      (field (codes "required_approvals") count end))

-- The five branch controls, by what they hold.
pub record BranchValues : Type 0 where
  pub admin : Value
  pub backend : Value
  pub force : Value
  pub pull : Value
  pub checks : Value

abbrev pub same_everywhere : Value → BranchValues
same_everywhere v = record { admin = v; backend = v; force = v; pull = v; checks = v }

abbrev pub backend_text : Backend → Text
backend_text rulesets = codes "ruleset"
backend_text legacy_branch_protection = codes "legacy_branch_protection"

abbrev pub text_values : List Text → Value
text_values ts = arr (from_items (text_items ts))

-- The desired values of `_branch_desired`.
unfoldable pub branch_desired : Settings → BranchValues
unfolding sorted
branch_desired s = record {
  admin = bool false;
  backend = str (backend_text s.enforcement_backend);
  force = bool false;
  pull = pull_value (bool s.require_last_push_approval) (int (pos s.required_approvals));
  checks = text_values (sorted s.checks);
}

-- The controls over the current values, in the order of `_branch_desired`.
unfoldable pub branch_controls : Policy → BranchValues → List Control
unfolding control branch_desired
branch_controls policy current =
    let desired = branch_desired policy.settings in
    let minimums = policy.minimums in
    control admin_bypass current.admin desired.admin minimums.admin_bypass_allowed
    ∷ control enforcement_backend current.backend desired.backend []
    ∷ control force_pushes current.force desired.force minimums.force_pushes_allowed
    ∷ control pull_request current.pull desired.pull minimums.pull_request_required
    ∷ control status_checks current.checks desired.checks minimums.status_checks_required
    ∷ []

-- The current values under a managed ruleset, from its effective rules.
unfoldable pub managed_values : Ruleset → List Rule → M BranchValues
unfolding single_rule get_known
managed_values managed rules = do
  pull ← single_rule rules (codes "pull_request")
  checks ← single_rule rules (codes "required_status_checks")
  no_force ← single_rule rules (codes "non_fast_forward")
  ok (record {
    admin = managed.has_bypass_actors;
    backend = str (codes "ruleset");
    force = bool (is_none no_force);
    pull = elim pull [
      | none ↦ null
      | some rule ↦
          pull_value (get_known (codes "require_last_push_approval") rule.parameters)
            (get_known (codes "required_approving_review_count") rule.parameters)
    ];
    checks = elim checks [ none ↦ null | some rule ↦ get_known (codes "contexts") rule.parameters ];
  })

-- What is not under the management of the policy.
pub record Compared : Type 0 where
  pub values : BranchValues
  pub unmanaged_rules : List Rule
  pub unmanaged_legacy : Option Legacy

abbrev pub unless_absent : Legacy → Option Legacy
unless_absent absent = none
unless_absent legacy = some legacy

-- `_ruleset_branch_controls`, up to the controls themselves.
unfoldable pub ruleset_branch : Inventory → M Compared
unfolding managed_repository_ruleset managed_values keep_if value_eq
ruleset_branch inventory = do
  managed ← managed_repository_ruleset inventory
  let uncertain =
      any (λ r. r.name == unknown_text) inventory.rulesets
      || any (λ rule. value_eq rule.ruleset_id unknown_value) inventory.effective_rules
  let managed_id : Value = elim managed [ none ↦ null | some r ↦ int r.id ]
  values ← elim managed [
    | none ↦ ok (same_everywhere (if uncertain then unknown_value else null))
    | some r ↦
        managed_values r
          (keep_if (λ rule. value_eq rule.ruleset_id managed_id) inventory.effective_rules)
  ]
  ok (record {
    values = values;
    unmanaged_rules =
        keep_if (λ rule. not (value_eq rule.ruleset_id managed_id)) inventory.effective_rules;
    unmanaged_legacy = unless_absent inventory.legacy;
  })

negated : Value → Value
negated (bool b) = bool (not b)
negated v = unknown_value

legacy_values : Legacy → BranchValues
unfolding negated
legacy_values absent = same_everywhere null
legacy_values unavailable = same_everywhere unknown_value
legacy_values (configured l) = record {
  admin = negated l.enforce_admins;
  backend = str (codes "legacy_branch_protection");
  force = l.allow_force_pushes;
  pull = elim l.reviews [ none ↦ null | some r ↦ pull_value r.last_push r.count ];
  checks = elim l.checks [ none ↦ null | some c ↦ c.contexts ];
}

-- `_legacy_branch_controls`, up to the controls themselves.
unfoldable pub legacy_branch : Inventory → Compared
unfolding legacy_values
legacy_branch inventory = record {
  values = legacy_values inventory.legacy;
  unmanaged_rules = inventory.effective_rules;
  unmanaged_legacy = none;
}

abbrev merge_value : Value → Value → Value → Value
merge_value commit rebase squash = obj (
    field (codes "allow_merge_commit") commit
      (field (codes "allow_rebase_merge") rebase (field (codes "allow_squash_merge") squash end)))

abbrev format_value : Value → Value → Value
format_value message title = obj (field (codes "message") message (field (codes "title") title end))

abbrev enabled : Text
enabled = codes "enabled"

-- The controls that `compare_governance` adds itself.
unfoldable pub other_controls : Policy → Inventory → List Control
unfolding control keep_if sorted
other_controls policy inventory =
    let s = policy.settings in
    let m = policy.minimums in
    let repo = inventory.repository in
    let sec = inventory.security in
    let required = sorted s.checks in
    control checks_observed
      (text_values (sorted (keep_if (λ c. contains c inventory.observed_checks) required)))
      (text_values required) m.status_checks_required
    ∷ control merge_strategy
        (merge_value repo.allow_merge_commit repo.allow_rebase_merge repo.allow_squash_merge)
        (merge_value (bool false) (bool false) (bool true)) m.squash_merge_only
    ∷ control delete_branch repo.delete_branch_on_merge (bool s.delete_branch_on_merge) []
    ∷ control discussions repo.has_discussions (bool s.discussions_enabled) []
    ∷ control squash_format
        (format_value repo.squash_merge_commit_message repo.squash_merge_commit_title)
        (format_value (str s.squash_message) (str s.squash_title)) []
    ∷ control dependabot_updates (str sec.dependabot_security_updates)
        (str (elim s.dependency_update_provider [
          | dependabot ↦ enabled
          | renovate ↦ codes "disabled"
        ]))
        []
    ∷ control push_protection (str sec.push_protection) (str enabled) m.push_protection_enabled
    ∷ control secret_scanning (str sec.secret_scanning) (str enabled) m.secret_scanning_enabled
    ∷ control private_reporting (str sec.private_vulnerability_reporting) (str enabled)
        m.private_vulnerability_reporting_enabled
    ∷ control alerts (str sec.vulnerability_alerts) (str enabled) m.vulnerability_alerts_enabled
    ∷ []

pub record Report : Type 0 where
  pub branch : Text
  pub controls : List Control
  pub repository : Text
  pub status : Status
  pub unmanaged_rules : List Rule
  pub unmanaged_legacy : Option Legacy

abbrev pub is_unavailable : Option Legacy → Bool
is_unavailable (some unavailable) = true
is_unavailable _ = false

-- The status of the report.
unfoldable pub overall : List Control → Option Legacy → Status
overall controls unmanaged_legacy =
    if any (λ c. is_unknown c.status) controls || is_unavailable unmanaged_legacy
    then unknown
    else if any (λ c. is_drift c.status) controls
    then drift
    else compliant

abbrev pub id_le : Control → Control → Bool
id_le c d = text_le (id_text c.id) (id_text d.id)

-- The report, from what was compared on the branch.
unfoldable pub report_of : Policy → Inventory → Compared → Report
unfolding branch_controls other_controls overall sort_by id_text text_le
report_of policy inventory compared =
    let controls = branch_controls policy compared.values ++ other_controls policy inventory in
    record {
      branch = policy.settings.target_branch;
      controls = sort_by id_le controls;
      repository = inventory.repository.full_name;
      status = overall controls compared.unmanaged_legacy;
      unmanaged_rules = compared.unmanaged_rules;
      unmanaged_legacy = compared.unmanaged_legacy;
    }

-- The comparison on the branch, by the backend.
unfoldable pub compare_branch : Backend → Inventory → M Compared
unfolding ruleset_branch legacy_branch
compare_branch rulesets inventory = ruleset_branch inventory
compare_branch legacy_branch_protection inventory = ok (legacy_branch inventory)

-- `compare_governance`
unfoldable pub compare_governance : Policy → Inventory → M Report
unfolding compare_branch report_of
compare_governance policy inventory = do
  raise_if (not (inventory.branch == policy.settings.target_branch)) wrong_branch
  compared ← compare_branch policy.settings.enforcement_backend inventory
  ok (report_of policy inventory compared)
