-- ===== src/Governance/Policy.antt =====
-- scripts/github_governance.py: `resolve_policy`.
pub mod Layers
use chat_chart.Governance.Settings.{
  required_checks, M, Settings, object, get_item, schema_version, rule_refs, validate_settings,
  setting_fields,
}
use chat_chart.Governance.Profiles.{merge_required_checks, Profile, manager, profile_chain}
use chat_chart.Base.{
  Bool, true, false, not, ◌&&◌, Option, none, some, List, [], ◌∷◌, ◌++◌, ok, ◌>>=◌, ◌>>◌,
  if◌then◌else◌, ◌==◌, lookup, Text, Value, insert, codes, all, str, bool, Dict, obj, require,
  contains, raise_if, from_entries, as_dict, arr, as_str, from_items,
}
use chat_chart.Governance.Errors.{
  weakened_minimum, not_an_object, wrong_manager, wrong_minimum_refs,
}

-- The rule references of the foundation's nine minimums. Their values are those of the contract.
pub record Minimums : Type 0 where
  pub pull_request_required : List Text
  pub status_checks_required : List Text
  pub force_pushes_allowed : List Text
  pub admin_bypass_allowed : List Text
  pub squash_merge_only : List Text
  pub secret_scanning_enabled : List Text
  pub push_protection_enabled : List Text
  pub vulnerability_alerts_enabled : List Text
  pub private_vulnerability_reporting_enabled : List Text

pub record Policy : Type 0 where
  pub minimums : Minimums
  pub profiles : List Profile
  pub settings : Settings

-- `set(xs) == set(ys)`
abbrev pub same_set : List Text → List Text → Bool
same_set xs ys = all (λ x. contains x ys) xs && all (λ y. contains y xs) ys

is_bool : Bool → Value → Bool
is_bool true (bool true) = true
is_bool false (bool false) = true
is_bool _ _ = false

-- The body of the loop over `MINIMUM_CONTRACT`.
unfoldable pub minimum : List Text → Dict → Text → Bool → List Text → M (List Text)
unfolding is_bool
minimum known minimums name required_value required_refs = do
  control ← object (← get_item minimums name) (codes "value" ∷ codes "rule_refs" ∷ []) false
  value ← get_item control (codes "value")
  raise_if (not (is_bool required_value value)) weakened_minimum
  refs ← rule_refs (← get_item control (codes "rule_refs")) known
  raise_if (not (same_set refs required_refs)) wrong_minimum_refs
  ok refs

abbrev minimum_names : List Text
minimum_names =
    codes "pull_request_required"
    ∷ codes "status_checks_required"
    ∷ codes "force_pushes_allowed"
    ∷ codes "admin_bypass_allowed"
    ∷ codes "squash_merge_only"
    ∷ codes "secret_scanning_enabled"
    ∷ codes "push_protection_enabled"
    ∷ codes "vulnerability_alerts_enabled"
    ∷ codes "private_vulnerability_reporting_enabled"
    ∷ []

unfoldable pub read_minimums : List Text → Value → M Minimums
unfolding minimum
read_minimums known value = do
  d ← object value minimum_names false
  pull ← minimum known d (codes "pull_request_required") true (codes "GR-010" ∷ [])
  checks ← minimum known d (codes "status_checks_required") true (codes "GR-012" ∷ [])
  force ← minimum known d (codes "force_pushes_allowed") false (codes "GR-011" ∷ [])
  admin ←
      minimum known d (codes "admin_bypass_allowed") false (codes "GR-010" ∷ codes "GR-012" ∷ [])
  squash ← minimum known d (codes "squash_merge_only") true (codes "WF-030" ∷ [])
  scanning ← minimum known d (codes "secret_scanning_enabled") true (codes "SEC-002" ∷ [])
  push ← minimum known d (codes "push_protection_enabled") true (codes "SEC-002" ∷ [])
  alerts ← minimum known d (codes "vulnerability_alerts_enabled") true (codes "SEC-003" ∷ [])
  reporting ←
      minimum known d (codes "private_vulnerability_reporting_enabled") true (codes "SEC-003" ∷ [])
  ok (record {
    pull_request_required = pull;
    status_checks_required = checks;
    force_pushes_allowed = force;
    admin_bypass_allowed = admin;
    squash_merge_only = squash;
    secret_scanning_enabled = scanning;
    push_protection_enabled = push;
    vulnerability_alerts_enabled = alerts;
    private_vulnerability_reporting_enabled = reporting;
  })

-- `d.update(e)`
unfoldable pub update : Dict → Dict → Dict
unfolding insert
update d [] = d
update d ((k, v) ∷ e) = update (insert k v d) e

-- The dict without a key.
unfoldable pub without : Text → Dict → Dict
without k [] = []
without k ((j, v) ∷ d) = let rest = without k d in if j == k then rest else (j, v) ∷ rest

-- The checks that the repository adds, and the test on them if the field is there.
unfoldable pub repository_checks : Option Value → M (List Text)
unfolding required_checks
repository_checks none = ok []
repository_checks (some v) = required_checks v

abbrev pub check_groups : List Profile → List (List Text)
check_groups [] = []
check_groups (p ∷ ps) = p.checks ∷ check_groups ps

abbrev pub text_items : List Text → List Value
text_items [] = []
text_items (t ∷ ts) = str t ∷ text_items ts

-- The resolved settings before their validation.
unfoldable pub overlay : Dict → Dict → List Text → Value
unfolding update without insert
overlay defaults overrides merged = obj (
    from_entries (
      insert (codes "required_checks") (arr (from_items (text_items merged)))
        (update defaults (without (codes "required_checks") overrides))))

-- The last part of `resolve_policy`, from the validated layers.
unfoldable pub resolve_settings : Value → Settings → List Profile → Dict → M Settings
resolve_settings defaults_value defaults profiles overrides = do
  own ← repository_checks (lookup (codes "required_checks") overrides)
  d ← require (as_dict defaults_value) not_an_object
  let merged = merge_required_checks (defaults.checks ∷ (check_groups profiles ++ (own ∷ [])))
  validate_settings (overlay d overrides merged)

unfoldable pub is_manager : Option Text → Bool
is_manager none = false
is_manager (some t) = t == manager

abbrev pub foundation_fields : List Text
foundation_fields =
    codes "schema_version" ∷ codes "managed_by" ∷ codes "minimums" ∷ codes "defaults" ∷ []

abbrev pub repository_fields : List Text
repository_fields = codes "schema_version" ∷ codes "overrides" ∷ []

-- The part of `resolve_policy` behind the foundation's minimums.
unfoldable pub resolve_layers : Dict → Minimums → Value → List Value → M Policy
resolve_layers foundation minimums repository_value profile_values = do
  defaults_value ← get_item foundation (codes "defaults")
  defaults ← validate_settings defaults_value
  profiles ← profile_chain profile_values
  repository ← object repository_value repository_fields false
  schema_version repository
  overrides ← object (← get_item repository (codes "overrides")) setting_fields true
  settings ← resolve_settings defaults_value defaults profiles overrides
  ok (record { minimums = minimums; profiles = profiles; settings = settings })

-- `resolve_policy`
unfoldable pub resolve_policy : Value → Value → List Text → List Value → M Policy
resolve_policy foundation_value repository_value known profile_values = do
  foundation ← object foundation_value foundation_fields false
  schema_version foundation
  managed_by ← get_item foundation (codes "managed_by")
  raise_if (not (is_manager (as_str managed_by))) wrong_manager
  minimums ← read_minimums known (← get_item foundation (codes "minimums"))
  resolve_layers foundation minimums repository_value profile_values
