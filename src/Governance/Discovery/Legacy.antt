-- ===== src/Governance/Discovery/Legacy.antt =====
-- scripts/github_governance.py: `_legacy_inventory` and `_discover_legacy_protection`.
use chat_chart.Base.{
  Bool, true, false, Option, none, some, ◌++◌, ok, err, ◌>>=◌, if◌then◌else◌, Value, Text, lookup,
  null, sorted, Dict, obj, nat_eq, codes, entries, require, as_dict,
}
use chat_chart.Governance.Settings.{M, text_list}
use chat_chart.Governance.Gh.{Gh, gh_get_status, gh_get_json, get_in, known_bool, known_int}
use chat_chart.Governance.Inventory.{
  Legacy, unknown_value, LegacyChecks, Reviews, absent, unavailable, LegacyState, configured,
}
use chat_chart.Governance.Actions.{endpoint_of}
use chat_chart.Governance.Compare.{text_values}
use chat_chart.Governance.Errors.{bad_protection}

contexts_of : Option Value → Value
unfolding text_list sorted
contexts_of none = unknown_value
contexts_of (some v) = elim (text_list v) [
  | none ↦ unknown_value
  | some ts ↦ text_values (sorted ts)
]

reviews_of : Option Value → Option Reviews
unfolding lookup
reviews_of (some (obj fs)) = some (record {
  last_push = known_bool (lookup (codes "require_last_push_approval") (entries fs));
  count = known_int (lookup (codes "required_approving_review_count") (entries fs));
})
reviews_of _ = none

checks_of : Option Value → Option LegacyChecks
unfolding lookup contexts_of
checks_of (some (obj fs)) = some (record {
  contexts = contexts_of (lookup (codes "contexts") (entries fs));
  strict = known_bool (lookup (codes "strict") (entries fs));
})
checks_of _ = none

-- The state of a protection that is a dict.
unfoldable legacy_state : Dict → LegacyState
unfolding lookup get_in reviews_of checks_of
legacy_state d = record {
  allow_force_pushes =
      known_bool (get_in (lookup (codes "allow_force_pushes") d) (codes "enabled"));
  enforce_admins = known_bool (get_in (lookup (codes "enforce_admins") d) (codes "enabled"));
  reviews = reviews_of (lookup (codes "required_pull_request_reviews") d);
  checks = checks_of (lookup (codes "required_status_checks") d);
}

-- `_legacy_inventory`, where `null` is `None`.
unfoldable pub legacy_inventory : Bool → Value → M Legacy
unfolding legacy_state
legacy_inventory false protection = ok absent
legacy_inventory true null = ok unavailable
legacy_inventory true protection = do
  d ← require (as_dict protection) bad_protection
  ok (configured (legacy_state d))

-- What follows a read of the protection that gave nothing, where `admin` is `admin_access is True`.
unfoldable pub legacy_by_status : Gh → Text → Bool → M Legacy
unfolding legacy_inventory
legacy_by_status G endpoint admin =
    if admin
    then elim (gh_get_status G endpoint) [
      | err _ ↦ legacy_inventory true null
      | ok status ↦
          if nat_eq status 404 then legacy_inventory false null else legacy_inventory true null
    ]
    else legacy_inventory true null

unfoldable pub legacy_behind : Gh → Text → Bool → Value → M Legacy
unfolding legacy_by_status legacy_inventory
legacy_behind G endpoint admin null = legacy_by_status G endpoint admin
legacy_behind G endpoint admin protection = legacy_inventory true protection

-- `_discover_legacy_protection`
unfoldable pub discover_legacy : Gh → Text → Text → Bool → Bool → M Legacy
unfolding legacy_behind
discover_legacy G repository branch_path protected admin =
    let endpoint =
      endpoint_of repository (codes "/branches/" ++ (branch_path ++ codes "/protection")) in
    if protected
    then gh_get_json G endpoint true >>= legacy_behind G endpoint admin
    else legacy_inventory false null
