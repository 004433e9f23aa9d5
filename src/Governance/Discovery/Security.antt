-- ===== src/Governance/Discovery/Security.antt =====
-- scripts/github_governance.py: `_security_inventory`, `_vulnerability_alerts_inventory`,
-- `_private_reporting_inventory` and `_observed_checks`.
use chat_chart.Base.{
  ℕ, Bool, true, false, ◌&&◌, ◌||◌, Option, none, some, List, [], ◌++◌, ok, err, ◌>>=◌,
  if◌then◌else◌, ◌==◌, Value, Text, sorted, leb, nat_eq, Dict, lookup, str, length, codes, traverse,
  bool, all, arr, obj,
}
use chat_chart.Governance.Settings.{M}
use chat_chart.Governance.Gh.{Gh, get_in, gh_get_status, gh_get_pages}
use chat_chart.Governance.Inventory.{unknown_text}
use chat_chart.Governance.Errors.{
  PolicyError, bad_commit, unexpected_status, bad_run_name, type_error, bad_context,
}
use chat_chart.Governance.Actions.{endpoint_of}
use chat_chart.Governance.Profiles.{first_of_each}

-- `value if value in {"enabled", "disabled"} else UNKNOWN`. A list or a dict has no hash.
unfoldable pub feature_status : Option Value → M Text
feature_status (some (str s)) =
    ok (if s == codes "enabled" || s == codes "disabled" then s else unknown_text)
feature_status (some (arr _)) = err type_error
feature_status (some (obj _)) = err type_error
feature_status _ = ok unknown_text

-- `_security_inventory`
pub record Features : Type 0 where
  pub dependabot : Text
  pub push : Text
  pub scanning : Text

unfoldable pub security_inventory : Dict → M Features
unfolding feature_status get_in lookup
security_inventory repository = do
  let security = lookup (codes "security_and_analysis") repository
  let status = λ (name : Text). feature_status (get_in (get_in security name) (codes "status"))
  dependabot ← status (codes "dependabot_security_updates")
  push ← status (codes "secret_scanning_push_protection")
  scanning ← status (codes "secret_scanning")
  ok (record { dependabot = dependabot; push = push; scanning = scanning })

-- What the status of the alerts says, where `admin` is `admin_access is True`.
unfoldable pub alerts_status : Text → Bool → ℕ → M Text
alerts_status endpoint admin status =
    if nat_eq status 204
    then ok (codes "enabled")
    else if nat_eq status 404
    then ok (if admin then codes "disabled" else unknown_text)
    else if nat_eq status 403
    then ok unknown_text
    else err (unexpected_status endpoint)

-- `_vulnerability_alerts_inventory`
unfoldable pub alerts_inventory : Gh → Text → Bool → M Text
unfolding alerts_status
alerts_inventory G repository admin =
    let endpoint = endpoint_of repository (codes "/vulnerability-alerts") in
    elim (gh_get_status G endpoint) [
      | ok status ↦ alerts_status endpoint admin status
      | err e ↦ if admin then err e else ok unknown_text
    ]

-- `_private_reporting_inventory`
unfoldable pub private_reporting_inventory : Value → Text
unfolding get_in
private_reporting_inventory payload = elim (get_in (some payload) (codes "enabled")) [
  | some (bool true) ↦ codes "enabled"
  | some (bool false) ↦ codes "disabled"
  | _ ↦ unknown_text
]

is_hex_digit : ℕ → Bool
is_hex_digit c =
    (leb b'0' c && leb c b'9') || (leb b'a' c && leb c b'f') || (leb b'A' c && leb c b'F')

-- `re.fullmatch(r"[0-9a-fA-F]{40,64}", sha)`
unfoldable is_sha : Text → Bool
unfolding is_hex_digit
is_sha sha = leb 40 (length sha) && leb (length sha) 64 && all is_hex_digit sha

-- `item[key]` of an item that must be a dict with a text there.
unfoldable text_at : Text → PolicyError → Value → M Text
unfolding get_in
text_at key error item = elim (get_in (some item) key) [ some (str t) ↦ ok t | _ ↦ err error ]

-- `sorted(set(xs))`
unfoldable pub sorted_set : List Text → List Text
unfolding sorted first_of_each
sorted_set xs = sorted (first_of_each [] xs)

-- The sha of the branch's head.
unfoldable pub head_sha : Dict → M Text
unfolding get_in lookup is_sha
head_sha branch = elim (get_in (lookup (codes "commit") branch) (codes "sha")) [
  | some (str sha) ↦ if is_sha sha then ok sha else err bad_commit
  | _ ↦ err bad_commit
]

-- `_observed_checks`
unfoldable pub observed_checks : Gh → Text → Dict → M (List Text)
unfolding head_sha text_at sorted_set
observed_checks G repository branch = do
  sha ← head_sha branch
  let commit = codes "/commits/" ++ sha
  runs ←
      gh_get_pages G (endpoint_of repository (commit ++ codes "/check-runs?per_page=100"))
        (some (codes "check_runs"))
  statuses ← gh_get_pages G (endpoint_of repository (commit ++ codes "/statuses?per_page=100")) none
  names ← traverse (text_at (codes "name") bad_run_name) runs
  contexts ← traverse (text_at (codes "context") bad_context) statuses
  ok (sorted_set (names ++ contexts))
