-- ===== src/Tests/Governance.antt =====
-- scripts/github_governance.py on a small policy and a repository without a ruleset.
use chat_chart.Base.{
  ℕ, List, [], ◌≡◌, Bool, end, codes, Text, Value, obj, arr, contains, ◌∷◌, ok, false, suc, field,
  sorted_minus, from_items, bool, true, str, any, int, pos, Perm, has_duplicates, strip, lookup,
  text_dec, starts_with, ends_with, refl, flatten, ◌⊎◌,
}
use chat_chart.Governance.Settings.{
  Settings, rulesets, object, get_item, renovate, schema_version, validate_settings, branch_name,
  bad_branch, required_checks, text_list, backend, provider, approvals, one_of, read_choice,
  rule_refs,
}
use chat_chart.Governance.Policy.{
  Policy, resolve_policy, resolve_layers, text_items, is_manager, read_minimums, resolve_settings,
  repository_checks, overlay,
}
use chat_chart.Governance.Policy.Layers.{IsValidSettings, IsLayered, resolve_policy-IsLayered}
use chat_chart.Governance.Apply.Loop.{Ends, execute_apply-Ends}
use chat_chart.Governance.Profiles.{
  profile_chain, Profile, read_profiles, merge_required_checks, manager, profile_id,
}
use chat_chart.Governance.Inventory.{Inventory, absent}
use chat_chart.Governance.Apply.{Remote, WriteOutcome, execute_apply, refused}
use chat_chart.Governance.Profiles.Chain.{IsChain, profile_chain-IsChain}
use chat_chart.Governance.Profiles.Merge.{merge_required_checks_lem}
use chat_chart.Governance.Apply.Writes.{with_log, attempted_of, execute_apply-log}
use chat_chart.Governance.Apply.Clearance.{IsCleared, execute_apply-IsCleared}
use chat_chart.Governance.Errors.{PolicyError}

abbrev texts : List Text → Value
texts ts = arr (from_items (text_items ts))

abbrev defaults_value : Value
defaults_value = obj (
    field (codes "target_branch") (str (codes "main")) (
      field (codes "enforcement_backend") (str (codes "ruleset")) (
        field (codes "required_approvals") (int (pos 0)) (
          field (codes "require_last_push_approval") (bool false) (
            field (codes "required_checks") (texts (codes "test" ∷ [])) (
              field (codes "dependency_update_provider") (str (codes "renovate")) (
                field (codes "delete_branch_on_merge") (bool true) (
                  field (codes "discussions_enabled") (bool false) (
                    field (codes "squash_merge_commit_title") (str (codes "PR_TITLE")) (
                      field (codes "squash_merge_commit_message") (str (codes "PR_BODY"))
                        end))))))))))

abbrev minimum_value : Bool → List Text → Value
minimum_value b refs =
    obj (field (codes "value") (bool b) (field (codes "rule_refs") (texts refs) end))

abbrev minimums_value : Value
minimums_value = obj (
    field (codes "pull_request_required") (minimum_value true (codes "GR-010" ∷ [])) (
      field (codes "status_checks_required") (minimum_value true (codes "GR-012" ∷ [])) (
        field (codes "force_pushes_allowed") (minimum_value false (codes "GR-011" ∷ [])) (
          field (codes "admin_bypass_allowed")
            (minimum_value false (codes "GR-010" ∷ codes "GR-012" ∷ []))
            (field (codes "squash_merge_only") (minimum_value true (codes "WF-030" ∷ [])) (
              field (codes "secret_scanning_enabled") (minimum_value true (codes "SEC-002" ∷ [])) (
                field (codes "push_protection_enabled") (minimum_value true (codes "SEC-002" ∷ []))
                  (field (codes "vulnerability_alerts_enabled")
                    (minimum_value true (codes "SEC-003" ∷ []))
                    (field (codes "private_vulnerability_reporting_enabled")
                      (minimum_value true (codes "SEC-003" ∷ [])) end)))))))))

abbrev pub foundation_value : Value
foundation_value = obj (
    field (codes "schema_version") (int (pos 1)) (
      field (codes "managed_by") (str (codes "ai-dev-foundation"))
        (field (codes "minimums") minimums_value (field (codes "defaults") defaults_value end))))

abbrev pub repository_value : Value
repository_value = obj (
    field (codes "schema_version") (int (pos 1)) (
      field (codes "overrides")
        (obj (
          field (codes "required_approvals") (int (pos 1))
            (field (codes "required_checks") (texts (codes "test" ∷ codes "chart" ∷ [])) end)))
        end))

abbrev known_rules : List Text
known_rules =
    codes "GR-010"
    ∷ codes "GR-011"
    ∷ codes "GR-012"
    ∷ codes "WF-030"
    ∷ codes "SEC-002"
    ∷ codes "SEC-003"
    ∷ []

abbrev profile_value : Text → Text → Text → Value
profile_value id parent check = obj (
    field (codes "schema_version") (int (pos 1)) (
      field (codes "id") (str id) (
        field (codes "parent") (str parent)
          (field (codes "required_checks") (texts (check ∷ [])) end))))

abbrev profile_values : List Value
profile_values =
    profile_value (codes "chat") (codes "web") (codes "types")
    ∷ profile_value (codes "web") (codes "ai-dev-foundation") (codes "lint")
    ∷ []

abbrev profile : Text → Text → Text → Profile
profile id parent check = record { id = id; parent = parent; checks = check ∷ [] }

abbrev chain : List Profile
chain =
    profile (codes "web") (codes "ai-dev-foundation") (codes "lint")
    ∷ profile (codes "chat") (codes "web") (codes "types")
    ∷ []

abbrev pub settings : Settings
settings = record {
  target_branch = codes "main";
  enforcement_backend = rulesets;
  required_approvals = 1;
  require_last_push_approval = false;
  checks = codes "test" ∷ codes "lint" ∷ codes "types" ∷ codes "chart" ∷ [];
  dependency_update_provider = renovate;
  delete_branch_on_merge = true;
  discussions_enabled = false;
  squash_title = codes "PR_TITLE";
  squash_message = codes "PR_BODY";
}

abbrev pub policy : Policy
policy = record {
  minimums = record {
    pull_request_required = codes "GR-010" ∷ [];
    status_checks_required = codes "GR-012" ∷ [];
    force_pushes_allowed = codes "GR-011" ∷ [];
    admin_bypass_allowed = codes "GR-010" ∷ codes "GR-012" ∷ [];
    squash_merge_only = codes "WF-030" ∷ [];
    secret_scanning_enabled = codes "SEC-002" ∷ [];
    push_protection_enabled = codes "SEC-002" ∷ [];
    vulnerability_alerts_enabled = codes "SEC-003" ∷ [];
    private_vulnerability_reporting_enabled = codes "SEC-003" ∷ [];
  };
  profiles = chain;
  settings = settings;
}

abbrev pub inventory : Inventory
inventory = record {
  branch = codes "main";
  protected = false;
  effective_rules = [];
  legacy = absent;
  observed_checks = codes "chart" ∷ codes "lint" ∷ codes "test" ∷ codes "types" ∷ [];
  repository = record {
    full_name = codes "acme/chart";
    allow_merge_commit = bool false;
    allow_rebase_merge = bool false;
    allow_squash_merge = bool true;
    default_branch = str (codes "main");
    delete_branch_on_merge = bool true;
    has_discussions = bool false;
    squash_merge_commit_message = str (codes "PR_BODY");
    squash_merge_commit_title = str (codes "PR_TITLE");
  };
  rulesets = [];
  security = record {
    dependabot_security_updates = codes "disabled";
    push_protection = codes "enabled";
    secret_scanning = codes "enabled";
    private_vulnerability_reporting = codes "enabled";
    vulnerability_alerts = codes "enabled";
  };
}

-- A remote that accepts each write and changes nothing. Its state counts the writes.
abbrev pub stale : Remote
stale = record {
  State = ℕ;
  write = λ _ n. (WriteOutcome.exited 0, suc n);
  discover = λ _ _ n. (ok inventory, n);
}

program : Unit {0}
unfolding resolve_policy resolve_layers object sorted_minus get_item schema_version is_manager
    read_minimums validate_settings branch_name bad_branch required_checks text_list strip
    has_duplicates backend provider approvals one_of read_choice profile_chain resolve_settings
    repository_checks overlay merge_required_checks lookup text_dec starts_with ends_with rule_refs
    profile_id flatten
program = tt

sample_chain : profile_chain profile_values ≡ ok chain
unfolding program
sample_chain = refl

sample_policy :
    resolve_policy foundation_value repository_value known_rules profile_values ≡ ok policy
unfolding program
sample_policy = refl

profile_chain-IsChain_example :
    (profiles : List Profile) × (read_profiles [] profile_values ≡ ok profiles)
    × IsChain manager chain
    × Perm chain profiles
profile_chain-IsChain_example = profile_chain-IsChain profile_values sample_chain

resolve_policy-IsLayered_example :
    IsValidSettings policy.settings
    × IsLayered foundation_value repository_value profile_values policy
resolve_policy-IsLayered_example =
    resolve_policy-IsLayered foundation_value repository_value known_rules profile_values
      sample_policy

merge_required_checks_lem_example :
    ((c : Text)
      → contains c (merge_required_checks ((codes "test" ∷ []) ∷ (codes "test" ∷ []) ∷ []))
        ≡ any (contains c) ((codes "test" ∷ []) ∷ (codes "test" ∷ []) ∷ []))
    × (has_duplicates (merge_required_checks ((codes "test" ∷ []) ∷ (codes "test" ∷ []) ∷ []))
        ≡ false)
merge_required_checks_lem_example =
    merge_required_checks_lem ((codes "test" ∷ []) ∷ (codes "test" ∷ []) ∷ [])

execute_apply-Ends_example :
    Ends policy stale inventory
      (codes "acme/chart")
      0
      (execute_apply policy stale inventory (codes "acme/chart") 0).0
      (execute_apply policy stale inventory (codes "acme/chart") 0).1
execute_apply-Ends_example = execute_apply-Ends policy stale inventory (codes "acme/chart") 0

execute_apply-log_example :
    (execute_apply policy (with_log stale) inventory (codes "acme/chart") (0, [])).1.1
    ≡ attempted_of (execute_apply policy (with_log stale) inventory (codes "acme/chart") (0, [])).0
execute_apply-log_example = execute_apply-log policy stale inventory (codes "acme/chart") 0

execute_apply-IsCleared_example :
    IsCleared policy inventory (codes "acme/chart")
    ⊎ ((x : PolicyError) × (execute_apply policy stale inventory (codes "acme/chart") 0
          ≡ (refused x, 0)))
execute_apply-IsCleared_example =
    execute_apply-IsCleared policy stale inventory (codes "acme/chart") 0
