-- ===== src/Governance/Discovery/Reads.antt =====
-- `discover_github`: what an inventory says that it returns.
use chat_chart.Base.{
  ◌≡◌, refl, true, false, ◌∷◌, [], Text, contains, codes, has_duplicates, text_le, arith, ok, err,
  >>=-eq-ok, raise_if, raise_if-eq-ok, ok-injective, subst, Bool, ℕ, Value, Option, Dict, List,
  traverse, require, as_dict, ◌++◌, sorted, sorted-duplicates, text_le_total, sort_by-InOrder,
  InOrder, null, bool, int, real, str, arr, obj, some, none, text_dec, ◌∙◌, if◌then◌else◌, sym,
  ◌==◌, ◌||◌, lookup,
}
use chat_chart.Governance.Gh.{Gh, gh_get_json, gh_get_pages, gh_get_status, get_in}
use chat_chart.Governance.Errors.{no_protected, bad_target, unsafe_branch, bad_responses}
use chat_chart.Governance.Discovery.{
  protected_of, bad_repository, repository_of, has_admin, inventory_of, discover_github,
}
use chat_chart.Governance.Discovery.Security.{
  feature_status, security_inventory, Features, alerts_status, alerts_inventory,
  private_reporting_inventory, observed_checks, sorted_set, head_sha,
}
use chat_chart.Governance.Actions.{endpoint_of}
use chat_chart.Governance.Discovery.Legacy.{discover_legacy, legacy_inventory}
use chat_chart.Governance.Discovery.Rules.{normalize_rules}
use chat_chart.Governance.Discovery.Rulesets.{discover_rulesets}
use chat_chart.Governance.Settings.{bad_branch, M}
use chat_chart.Governance.Inventory.{Inventory, unknown_text, Legacy, absent}
use chat_chart.Governance.Profiles.{first_of_each}
use chat_chart.Governance.Profiles.Merge.{first_of_each-distinct}

-- The three statuses of a security feature.
abbrev is_feature_status : Text → Bool
is_feature_status t = contains t (codes "enabled" ∷ codes "disabled" ∷ unknown_text ∷ [])

-- An inventory of the branch of the repository.
pub record IsInventoryOf (repository branch : Text) (i : Inventory) : Type 0 where
  pub safe_target : bad_repository repository ≡ false
  pub safe_branch : bad_branch branch ≡ false
  pub named : i.repository.full_name ≡ repository
  pub on_branch : i.branch ≡ branch
  pub known_dependabot : is_feature_status i.security.dependabot_security_updates ≡ true
  pub known_push : is_feature_status i.security.push_protection ≡ true
  pub known_scanning : is_feature_status i.security.secret_scanning ≡ true
  pub known_reporting : is_feature_status i.security.private_vulnerability_reporting ≡ true
  pub known_alerts : is_feature_status i.security.vulnerability_alerts ≡ true
  pub unprotected : i.protected ≡ false → i.legacy ≡ absent
  pub checks_in_order : InOrder text_le i.observed_checks
  pub distinct_checks : has_duplicates i.observed_checks ≡ false

repository_of-named :
    (repository : Text) (d : Dict) → (repository_of repository d).full_name ≡ repository
unfolding repository_of
repository_of-named repository d = refl

known_of :
    (t : Text) {u : Text}
    → is_feature_status t ≡ true
    → ◌≡◌ {A = M Text} (ok t) (ok u)
    → is_feature_status u ≡ true
known_of t k h = subst (λ u. is_feature_status u ≡ true) (ok-injective h) k

named_status :
    (s : Text)
    → is_feature_status (if s == codes "enabled" || s == codes "disabled" then s else unknown_text)
      ≡ true
unfolding text_dec
named_status s = ground arith

feature_status-known :
    (v : Option Value) {t : Text} → feature_status v ≡ ok t → is_feature_status t ≡ true
unfolding feature_status text_dec
feature_status-known none h = known_of _ refl h
feature_status-known (some (str s)) h = known_of _ (named_status s) h
feature_status-known (some (arr vs)) h = cc
feature_status-known (some (obj fs)) h = cc
feature_status-known (some null) h = known_of _ refl h
feature_status-known (some (bool b)) h = known_of _ refl h
feature_status-known (some (int n)) h = known_of _ refl h
feature_status-known (some (real t)) h = known_of _ refl h

private_reporting-known : (v : Value) → is_feature_status (private_reporting_inventory v) ≡ true
unfolding private_reporting_inventory text_dec
private_reporting-known v = ground arith

alerts_status-known :
    (e : Text) (admin : Bool) (n : ℕ) {t : Text}
    → alerts_status e admin n ≡ ok t
    → is_feature_status t ≡ true
unfolding alerts_status text_dec
alerts_status-known e admin n {t} h = ground arith

alerts_inventory-known :
    (G : Gh) (repository : Text) (admin : Bool) {t : Text}
    → alerts_inventory G repository admin ≡ ok t
    → is_feature_status t ≡ true
unfolding alerts_inventory text_dec
alerts_inventory-known G repository admin {t} h =
    by_status (gh_get_status G (endpoint_of repository (codes "/vulnerability-alerts"))) admin h
  where
    by_status :
        (r : M ℕ) (admin : Bool)
        → elim r [
          | ok status ↦
              alerts_status (endpoint_of repository (codes "/vulnerability-alerts")) admin status
          | err e ↦ if admin then err e else ok unknown_text
        ]
          ≡ ok t
        → is_feature_status t ≡ true
    by_status (ok n) a h = alerts_status-known _ a n h
    by_status (err e) true h = cc
    by_status (err e) false h = known_of _ refl h

security_inventory-known :
    (d : Dict) {f : Features}
    → security_inventory d ≡ ok f
    → (is_feature_status f.dependabot ≡ true)
      × (is_feature_status f.push ≡ true)
      × (is_feature_status f.scanning ≡ true)
unfolding security_inventory
security_inventory-known d {f} h =
    let status = λ (name : Text).
      get_in (get_in (lookup (codes "security_and_analysis") d) name) (codes "status") in
    let dependabot = status (codes "dependabot_security_updates") in
    let push = status (codes "secret_scanning_push_protection") in
    let scanning = status (codes "secret_scanning") in
    let (a, e, h1) = >>=-eq-ok (feature_status dependabot) _ h in
    let (b, e2, h2) = >>=-eq-ok (feature_status push) _ h1 in
    let (c, e3, h3) = >>=-eq-ok (feature_status scanning) _ h2 in
    subst
      (λ f.
        (is_feature_status f.dependabot ≡ true)
        × (is_feature_status f.push ≡ true)
        × (is_feature_status f.scanning ≡ true))
      (ok-injective h3)
      (
        feature_status-known dependabot e,
        feature_status-known push e2,
        feature_status-known scanning e3,
      )

sorted_set-InOrder : (xs : List Text) → InOrder text_le (sorted_set xs)
unfolding sorted_set sorted
sorted_set-InOrder xs = sort_by-InOrder text_le text_le_total (first_of_each [] xs)

sorted_set-distinct : (xs : List Text) → has_duplicates (sorted_set xs) ≡ false
unfolding sorted_set
sorted_set-distinct xs = sorted-duplicates (first_of_each [] xs) ∙ first_of_each-distinct [] xs

observed_checks-set :
    (G : Gh) (repository : Text) (d : Dict) {ts : List Text}
    → observed_checks G repository d ≡ ok ts
    → InOrder text_le ts × (has_duplicates ts ≡ false)
unfolding observed_checks
observed_checks-set G repository d {ts} h =
    let (sha, _, h1) = >>=-eq-ok (head_sha d) _ h in
    let (runs, _, h2) = >>=-eq-ok (gh_get_pages G _ _) _ h1 in
    let (statuses, _, h3) = >>=-eq-ok (gh_get_pages G _ _) _ h2 in
    let (names, _, h4) = >>=-eq-ok (traverse _ runs) _ h3 in
    let (contexts, _, h5) = >>=-eq-ok (traverse _ statuses) _ h4 in
    subst (λ ts. InOrder text_le ts × (has_duplicates ts ≡ false)) (ok-injective h5)
      (sorted_set-InOrder (names ++ contexts), sorted_set-distinct (names ++ contexts))

discover_legacy-absent :
    (G : Gh) (repository path : Text) (protected admin : Bool) {l : Legacy}
    → discover_legacy G repository path protected admin ≡ ok l
    → protected ≡ false
    → l ≡ absent
unfolding discover_legacy legacy_inventory
discover_legacy-absent G repository path true admin h p = cc
discover_legacy-absent G repository path false admin h p = ok-injective (sym h)

module _ (G : Gh) (repository branch : Text) where
  inventory_of-IsInventoryOf :
      (d b : Dict) (rules : List Value) {i : Inventory}
      → bad_repository repository ≡ false
      → bad_branch branch ≡ false
      → inventory_of G repository branch d b rules ≡ ok i
      → IsInventoryOf repository branch i
  unfolding inventory_of
  inventory_of-IsInventoryOf d b rules {i} t s h =
      let (protected, _, h1) = >>=-eq-ok (require (protected_of b) no_protected) _ h in
      let (normal, _, h2) = >>=-eq-ok (normalize_rules G rules) _ h1 in
      let (legacy, l, h3) =
        >>=-eq-ok (discover_legacy G repository (G.quote branch) protected (has_admin d)) _ h2 in
      let (features, f, h4) = >>=-eq-ok (security_inventory d) _ h3 in
      let (reporting, _, h5) = >>=-eq-ok (gh_get_json G _ _) _ h4 in
      let (alerts, a, h6) = >>=-eq-ok (alerts_inventory G repository (has_admin d)) _ h5 in
      let (observed, o, h7) = >>=-eq-ok (observed_checks G repository b) _ h6 in
      let (rulesets, _, h8) = >>=-eq-ok (discover_rulesets G repository normal) _ h7 in
      let known = security_inventory-known d f in
      let checks = observed_checks-set G repository b o in
      subst (IsInventoryOf repository branch) (ok-injective h8) (record {
        safe_target = t;
        safe_branch = s;
        named = repository_of-named repository d;
        on_branch = refl;
        known_dependabot = known.0;
        known_push = known.1;
        known_scanning = known.2;
        known_reporting = private_reporting-known reporting;
        known_alerts = alerts_inventory-known G repository (has_admin d) a;
        unprotected =
            discover_legacy-absent G repository (G.quote branch) protected (has_admin d) l;
        checks_in_order = checks.0;
        distinct_checks = checks.1;
      })

  -- An inventory that the discovery returns is of the repository and the branch that were asked for, which
  -- have safe names. Its five security statuses are known words, its observed checks are sorted and
  -- different, and a branch that is not protected has no legacy protection.
  pub discover_github-IsInventoryOf :
      {i : Inventory}
      → discover_github G repository branch ≡ ok i
      → IsInventoryOf repository branch i
  unfolding discover_github
  discover_github-IsInventoryOf {i} h =
      let (_, t, h1) = >>=-eq-ok (raise_if (bad_repository repository) bad_target) _ h in
      let (_, s, h2) = >>=-eq-ok (raise_if (bad_branch branch) unsafe_branch) _ h1 in
      let (repository_value, _, h3) = >>=-eq-ok (gh_get_json G _ _) _ h2 in
      let (branch_value, _, h4) = >>=-eq-ok (gh_get_json G _ _) _ h3 in
      let (rules, _, h5) = >>=-eq-ok (gh_get_pages G _ _) _ h4 in
      let (d, _, h6) = >>=-eq-ok (require (as_dict repository_value) bad_responses) _ h5 in
      let (b, _, h7) = >>=-eq-ok (require (as_dict branch_value) bad_responses) _ h6 in
      inventory_of-IsInventoryOf d b rules (raise_if-eq-ok _ _ t) (raise_if-eq-ok _ _ s) h7
