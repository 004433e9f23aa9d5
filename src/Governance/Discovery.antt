-- ===== src/Governance/Discovery.antt =====
-- scripts/github_governance.py: `discover_github`.
pub mod Security
pub mod Rules
pub mod UpdateState
pub mod Rulesets
pub mod Legacy
pub mod RoundTrip
pub mod Update
pub mod Reads
pub mod ReadOnly
use chat_chart.Base.{
  ℕ, Bool, true, false, not, ◌&&◌, ◌||◌, Option, none, some, List, [], ◌∷◌, ◌++◌, Result, ok, err,
  ◌>>=◌, ◌>>◌, if◌then◌else◌, ◌==◌, repository_target, lookup, Text, Dict, split, any, codes, str,
  contains, bool, raise_if, Value, require, as_dict, as_bool,
}
use chat_chart.Governance.Settings.{M, bad_branch}
use chat_chart.Governance.Gh.{Gh, get_in, known_bool, gh_get_json, gh_get_pages, known_str}
use chat_chart.Governance.Inventory.{Repository, Inventory}
use chat_chart.Governance.Discovery.Rules.{normalize_rules}
use chat_chart.Governance.Discovery.Legacy.{discover_legacy}
use chat_chart.Governance.Discovery.Security.{
  security_inventory, alerts_inventory, private_reporting_inventory, observed_checks,
}
use chat_chart.Governance.Errors.{bad_target, unsafe_branch, no_protected, bad_responses}
use chat_chart.Governance.Discovery.Rulesets.{discover_rulesets}
use chat_chart.Governance.Actions.{endpoint_of}

-- The first test of `discover_github`.
unfoldable pub bad_repository : Text → Bool
unfolding repository_target split
bad_repository repository =
    not (repository_target repository)
    || any (λ part. contains part (codes "." ∷ codes ".." ∷ [])) (split b'/' repository)

-- What is kept of the repository's response.
unfoldable pub repository_of : Text → Dict → Repository
unfolding lookup
repository_of repository d = record {
  full_name = repository;
  allow_merge_commit = known_bool (lookup (codes "allow_merge_commit") d);
  allow_rebase_merge = known_bool (lookup (codes "allow_rebase_merge") d);
  allow_squash_merge = known_bool (lookup (codes "allow_squash_merge") d);
  default_branch = str (known_str (lookup (codes "default_branch") d));
  delete_branch_on_merge = known_bool (lookup (codes "delete_branch_on_merge") d);
  has_discussions = known_bool (lookup (codes "has_discussions") d);
  squash_merge_commit_message = str (known_str (lookup (codes "squash_merge_commit_message") d));
  squash_merge_commit_title = str (known_str (lookup (codes "squash_merge_commit_title") d));
}

-- `admin_access is True`
unfoldable pub has_admin : Dict → Bool
unfolding lookup get_in
has_admin d = elim (get_in (lookup (codes "permissions") d) (codes "admin")) [
  | some (bool true) ↦ true
  | _ ↦ false
]

-- The branch's `protected`, if it is a bool.
unfoldable pub protected_of : Dict → Option Bool
unfolding lookup
protected_of d = elim (lookup (codes "protected") d) [ none ↦ none | some v ↦ as_bool v ]

module _ (G : Gh) (repository branch : Text) where
  -- The part of `discover_github` behind the first three responses.
  unfoldable pub inventory_of : Dict → Dict → List Value → M Inventory
  unfolding protected_of normalize_rules discover_legacy security_inventory alerts_inventory
      private_reporting_inventory observed_checks discover_rulesets repository_of has_admin
  inventory_of repository_data branch_data rules_data = do
    protected ← require (protected_of branch_data) no_protected
    let admin = has_admin repository_data
    rules ← normalize_rules G rules_data
    legacy ← discover_legacy G repository (G.quote branch) protected admin
    features ← security_inventory repository_data
    reporting ←
        gh_get_json G (endpoint_of repository (codes "/private-vulnerability-reporting")) true
    alerts ← alerts_inventory G repository admin
    observed ← observed_checks G repository branch_data
    rulesets ← discover_rulesets G repository rules
    ok (record {
      branch = branch;
      protected = protected;
      effective_rules = rules;
      legacy = legacy;
      observed_checks = observed;
      repository = repository_of repository repository_data;
      rulesets = rulesets;
      security = record {
        dependabot_security_updates = features.dependabot;
        push_protection = features.push;
        secret_scanning = features.scanning;
        private_vulnerability_reporting = private_reporting_inventory reporting;
        vulnerability_alerts = alerts;
      };
    })

  -- `discover_github`
  unfoldable pub discover_github : M Inventory
  unfolding bad_repository bad_branch inventory_of
  discover_github = do
    raise_if (bad_repository repository) bad_target
    raise_if (bad_branch branch) unsafe_branch
    repository_value ← gh_get_json G (endpoint_of repository []) false
    branch_value ←
        gh_get_json G (endpoint_of repository (codes "/branches/" ++ G.quote branch)) false
    rules_data ←
        gh_get_pages G
          (endpoint_of repository
            (codes "/rules/branches/" ++ (G.quote branch ++ codes "?per_page=100")))
          none
    repository_data ← require (as_dict repository_value) bad_responses
    branch_data ← require (as_dict branch_value) bad_responses
    inventory_of repository_data branch_data rules_data
