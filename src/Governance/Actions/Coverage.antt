-- ===== src/Governance/Actions/Coverage.antt =====
-- `build_apply_actions`: the plan covers what drifts.
use chat_chart.Base.{
  ◌++◌, ◌≡◌, refl, true, List, Bool, any, Text, ◌==◌, [], sort_by-any, text_le, ◌||◌, ◌&&◌,
  is_empty, arith, not, text_dec, ◌∷◌, Option, ok, all, some, none, Bool-cases, if◌then◌else◌,
  subst, ok-injective, inl, false, err, >>=-eq-ok, inr, ◌>>=◌, sym, ◌∙◌,
}
use chat_chart.Governance.Actions.{
  Action, apply_action, ActionId, Method, Body, security_action, listed, drifts, reporting_apply,
  alerts_apply, dependabot_apply, repository_action, branch_actions, ruleset_action, branch_ids,
}
use chat_chart.Governance.Compare.{
  ControlId, Control, id_text, secret_scanning, push_protection, alerts, private_reporting,
  dependabot_updates, merge_strategy, squash_format, discussions, delete_branch,
  managed_repository_ruleset,
}
use chat_chart.Governance.Settings.{Settings, Backend, M, legacy_branch_protection, rulesets}
use chat_chart.Governance.Policy.{Policy}
use chat_chart.Governance.Inventory.{Inventory, Ruleset}
use chat_chart.Governance.Errors.{legacy_not_implemented}
use chat_chart.Governance.Ruleset.{validate_update_state}

-- The controls that an action verifies.
abbrev pub verifies : ControlId → Action → Bool
verifies id a = any (λ j. id_text j == id_text id) a.verify_controls

abbrev pub covers_control : ControlId → List Action → Bool
covers_control id actions = any (verifies id) actions

apply_action-verifies :
    (id : ControlId) (action : ActionId) (m : Method) (endpoint : Text) (b : Body)
    (verify : List ControlId) (effects : List Text)
    → verifies id (apply_action action m endpoint b verify effects)
      ≡ any (λ j. id_text j == id_text id) verify
unfolding apply_action
apply_action-verifies id action m endpoint b verify effects =
    sort_by-any (λ a b. text_le (id_text a) (id_text b)) (λ j. id_text j == id_text id) verify

pub is_empty-append {ℓ} :
    {A : Type ℓ} (xs ys : List A) → is_empty (xs ++ ys) ≡ (is_empty xs && is_empty ys)
is_empty-append [] ys = refl
is_empty-append (x ∷ xs) ys = refl

module _ (controls : List Control) (repository : Text) where
  pub is_empty-security :
      is_empty (listed (security_action controls repository))
      ≡ not (drifts secret_scanning controls || drifts push_protection controls)
  unfolding security_action
  is_empty-security = ground arith

  pub is_empty-alerts :
      is_empty (listed (alerts_apply controls repository)) ≡ not (drifts alerts controls)
  unfolding alerts_apply
  is_empty-alerts = ground arith

  pub is_empty-reporting :
      is_empty (listed (reporting_apply controls repository))
      ≡ not (drifts private_reporting controls)
  unfolding reporting_apply
  is_empty-reporting = ground arith

  module _ (s : Settings) where
    pub is_empty-repository :
        is_empty (listed (repository_action controls s repository))
        ≡ not (
            drifts merge_strategy controls
            || drifts squash_format controls
            || drifts discussions controls
            || drifts delete_branch controls)
    unfolding repository_action
    is_empty-repository = ground arith

    pub is_empty-dependabot :
        is_empty (listed (dependabot_apply controls s repository))
        ≡ not (drifts dependabot_updates controls)
    unfolding dependabot_apply
    is_empty-dependabot = ground arith

  pub covers-secret_scanning :
      drifts secret_scanning controls ≡ true
      → covers_control secret_scanning (listed (security_action controls repository)) ≡ true
  unfolding security_action text_dec
  covers-secret_scanning d = ground arith

  pub covers-push_protection :
      drifts push_protection controls ≡ true
      → covers_control push_protection (listed (security_action controls repository)) ≡ true
  unfolding security_action text_dec
  covers-push_protection d = ground arith

  pub covers-alerts :
      drifts alerts controls ≡ true
      → covers_control alerts (listed (alerts_apply controls repository)) ≡ true
  unfolding alerts_apply text_dec
  covers-alerts d = ground arith

  pub covers-private_reporting :
      drifts private_reporting controls ≡ true
      → covers_control private_reporting (listed (reporting_apply controls repository)) ≡ true
  unfolding reporting_apply text_dec
  covers-private_reporting d = ground arith

  pub covers-dependabot_updates :
      (s : Settings)
      → drifts dependabot_updates controls ≡ true
      → covers_control dependabot_updates (listed (dependabot_apply controls s repository)) ≡ true
  unfolding dependabot_apply text_dec
  covers-dependabot_updates s d = ground arith

  pub covers-merge_strategy :
      (s : Settings)
      → drifts merge_strategy controls ≡ true
      → covers_control merge_strategy (listed (repository_action controls s repository)) ≡ true
  unfolding repository_action text_dec
  covers-merge_strategy s d = ground arith

  pub covers-squash_format :
      (s : Settings)
      → drifts squash_format controls ≡ true
      → covers_control squash_format (listed (repository_action controls s repository)) ≡ true
  unfolding repository_action text_dec
  covers-squash_format s d = ground arith

  pub covers-discussions :
      (s : Settings)
      → drifts discussions controls ≡ true
      → covers_control discussions (listed (repository_action controls s repository)) ≡ true
  unfolding repository_action text_dec
  covers-discussions s d = ground arith

  pub covers-delete_branch :
      (s : Settings)
      → drifts delete_branch controls ≡ true
      → covers_control delete_branch (listed (repository_action controls s repository)) ≡ true
  unfolding repository_action text_dec
  covers-delete_branch s d = ground arith

-- The action of the branch verifies all five of its controls.
ruleset_action-covers :
    (s : Settings) (repository : Text) (managed : Option Ruleset) {a : Action}
    → ruleset_action s repository managed ≡ ok a
    → all (λ id. verifies id a) branch_ids ≡ true
unfolding ruleset_action text_dec
ruleset_action-covers s repository none h =
    subst (λ a. all (λ id. verifies id a) branch_ids ≡ true) (ok-injective h) refl
ruleset_action-covers s repository (some managed) h =
    let (state, _, f) = >>=-eq-ok (validate_update_state managed s) _ h in
    subst (λ a. all (λ id. verifies id a) branch_ids ≡ true) (ok-injective f) refl

-- The ruleset that the branch's action writes.
branch_write : Backend → Settings → Inventory → Text → M (List Action)
unfolding ruleset_action managed_repository_ruleset
branch_write legacy_branch_protection s inventory repository = err legacy_not_implemented
branch_write rulesets s inventory repository = managed_repository_ruleset inventory >>= λ managed.
    ruleset_action s repository managed >>= λ a. ok (a ∷ [])

branch_write-covers :
    (b : Backend) (s : Settings) (inventory : Inventory) (repository : Text) {actions : List Action}
    → branch_write b s inventory repository ≡ ok actions
    → (is_empty actions ≡ false) × (all (λ id. covers_control id actions) branch_ids ≡ true)
unfolding branch_write
branch_write-covers legacy_branch_protection s inventory repository h = cc
branch_write-covers rulesets s inventory repository h =
    let (managed, _, f) = >>=-eq-ok (managed_repository_ruleset inventory) _ h in
    let (a, e, g) = >>=-eq-ok (ruleset_action s repository managed) _ f in
    let covered = ruleset_action-covers s repository managed {a = a} e in
    subst (λ l. (is_empty l ≡ false) × (all (λ id. covers_control id l) branch_ids ≡ true))
      (ok-injective g) (refl, ground arith)

branch_actions-eq :
    (policy : Policy) (inventory : Inventory) (controls : List Control) (repository : Text)
    → branch_actions policy inventory controls repository ≡ (
        if any (λ id. drifts id controls) branch_ids
        then branch_write policy.settings.enforcement_backend policy.settings inventory repository
        else ok [])
unfolding branch_actions branch_write
branch_actions-eq policy inventory controls repository = ground arith

-- The branch has its action exactly if one of its controls drifts.
pub branch_actions-covers :
    (policy : Policy) (inventory : Inventory) (controls : List Control) (repository : Text)
    {actions : List Action}
    → branch_actions policy inventory controls repository ≡ ok actions
    → (is_empty actions ≡ not (any (λ id. drifts id controls) branch_ids))
      × ((any (λ id. drifts id controls) branch_ids ≡ true)
          → all (λ id. covers_control id actions) branch_ids ≡ true)
branch_actions-covers policy inventory controls repository {actions} h =
    elim (Bool-cases (any (λ id. drifts id controls) branch_ids)) [
      | inl d ↦
          let (some_action, covered) =
            branch_write-covers policy.settings.enforcement_backend policy.settings inventory
              repository {actions = actions} (by_test d) in
          rw d (some_action, λ _. covered)
      | inr n ↦ rw n (subst (λ l. is_empty l ≡ true) (ok-injective (by_test n)) refl, λ x. cc)
    ]
  where
    by_test :
        {b : Bool}
        → any (λ id. drifts id controls) branch_ids ≡ b
        → (if b
            then branch_write policy.settings.enforcement_backend policy.settings inventory
                repository
            else ok [])
          ≡ ok actions
    by_test {b} e =
        subst
          (λ t.
            (if t
              then branch_write policy.settings.enforcement_backend policy.settings inventory
                  repository
              else ok [])
            ≡ ok actions)
          e (sym (branch_actions-eq policy inventory controls repository) ∙ h)
