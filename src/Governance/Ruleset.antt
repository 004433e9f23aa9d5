-- ===== src/Governance/Ruleset.antt =====
-- scripts/github_governance.py: `_ruleset_payload` and `_validate_update_state`.
use chat_chart.Base.{
  ℕ, suc, Bool, true, false, not, ◌||◌, Option, none, some, List, [], ◌∷◌, ◌++◌, ok, ◌>>=◌, ◌>>◌,
  if◌then◌else◌, ◌==◌, sorted, Dict, lookup, Text, Value, has_duplicates, obj, null, int, codes,
  is_empty, contains, pos, ℤ, field, entries, require, nat_eq, raise_if, as_list, as_bool, arr, all,
  nil, length, cons, as_str, str, end, bool, Fields, from_entries, from_items,
}
use chat_chart.Governance.Settings.{object, Settings, text_list, get_item, M}
use chat_chart.Governance.Inventory.{value_eq, Ruleset, bool_eq, UpdateState}
use chat_chart.Governance.Errors.{
  bad_merge_methods, incomplete_review_state, bad_ruleset_id, bad_status_checks, no_update_detail,
  unpreservable, bad_rule_inventory, state_mismatch,
}
use chat_chart.Governance.Compare.{text_values, managed_ruleset_name}

-- What `_validate_update_state` has checked of the pull request rule.
pub record PullState : Type 0 where
  pub methods : Option (List Text)
  pub dismiss_stale : Bool
  pub code_owner : Bool
  pub thread_resolution : Bool

-- A required check of the ruleset, and the app that has to report it.
pub record CheckState : Type 0 where
  pub context : Text
  pub integration : Option ℕ

pub record ValidState : Type 0 where
  pub pull : Option PullState
  pub checks : Option (List CheckState)

abbrev pub branch_ref : Text → Text
branch_ref branch = codes "refs/heads/" ++ branch

-- The conditions that the managed ruleset must have.
unfoldable pub expected_conditions : Settings → Value
expected_conditions s = obj (
    field (codes "exclude") (arr nil)
      (field (codes "include") (arr (cons (str (branch_ref s.target_branch)) nil)) end))

abbrev pub merge_methods : List Text
merge_methods = codes "merge" ∷ codes "rebase" ∷ codes "squash" ∷ []

-- `None`, or a non-empty list of different merge methods.
unfoldable pub read_methods : Value → M (Option (List Text))
unfolding text_list has_duplicates
read_methods null = ok none
read_methods value = do
  methods ← require (text_list value) bad_merge_methods
  raise_if
      (is_empty methods
        || not (all (λ m. contains m merge_methods) methods)
        || has_duplicates methods)
      bad_merge_methods
  ok (some methods)

unfoldable pub read_flag : Dict → Text → M Bool
read_flag d k = get_item d k >>= λ v. require (as_bool v) incomplete_review_state

abbrev pub pull_fields : List Text
pull_fields =
    codes "allowed_merge_methods"
    ∷ codes "dismiss_stale_reviews_on_push"
    ∷ codes "require_code_owner_review"
    ∷ codes "required_review_thread_resolution"
    ∷ []

unfoldable pub read_pull : Value → M (Option PullState)
unfolding object get_item read_flag
read_pull null = ok none
read_pull value = do
  d ← object value pull_fields false
  dismiss ← read_flag d (codes "dismiss_stale_reviews_on_push")
  owner ← read_flag d (codes "require_code_owner_review")
  threads ← read_flag d (codes "required_review_thread_resolution")
  methods ← read_methods (← get_item d (codes "allowed_merge_methods"))
  ok (
      some (record {
        methods = methods;
        dismiss_stale = dismiss;
        code_owner = owner;
        thread_resolution = threads;
      }))

-- The integration of a check: `None` or a positive `int`.
unfoldable pub read_integration : Value → Option (Option ℕ)
read_integration null = some none
read_integration (int (pos (suc n))) = some (some (suc n))
read_integration _ = none

check_state : Option Text → Option (Option ℕ) → Option CheckState
check_state (some context) (some integration) =
    if is_empty context
    then none
    else some (record { context = context; integration = integration })
check_state _ _ = none

-- One check: an object with exactly a context and an integration.
unfoldable pub read_check : Value → Option CheckState
unfolding check_state read_integration lookup has_duplicates
read_check (obj fs) =
    let d = entries fs in
    if nat_eq (length d) 2
    then check_state (elim (lookup (codes "context") d) [ none ↦ none | some v ↦ as_str v ])
        (elim (lookup (codes "integration_id") d) [ none ↦ none | some v ↦ read_integration v ])
    else none
read_check _ = none

unfoldable pub read_all : List Value → Option (List CheckState)
unfolding read_check
read_all [] = some []
read_all (v ∷ vs) = both (read_check v) (read_all vs)
  where
    both : Option CheckState → Option (List CheckState) → Option (List CheckState)
    both (some c) (some cs) = some (c ∷ cs)
    both _ _ = none

abbrev pub contexts : List CheckState → List Text
contexts [] = []
contexts (c ∷ cs) = c.context ∷ contexts cs

unfoldable pub read_checks : Value → M (Option (List CheckState))
read_checks null = ok none
read_checks value = do
  vs ← require (as_list value) bad_status_checks
  cs ← require (read_all vs) bad_status_checks
  raise_if (has_duplicates (contexts cs)) bad_status_checks
  ok (some cs)

abbrev is_null : Value → Bool
is_null null = true
is_null _ = false

abbrev pub managed_rule_types : List Text
managed_rule_types =
    codes "non_fast_forward" ∷ codes "pull_request" ∷ codes "required_status_checks" ∷ []

abbrev pub is_positive : ℤ → Bool
is_positive (pos (suc n)) = true
is_positive _ = false

-- The tests of `_validate_update_state`.
abbrev pub unpreserved : Settings → UpdateState → Bool
unpreserved settings state =
    not (value_eq state.conditions (expected_conditions settings))
    || not (is_empty state.unsupported)

abbrev pub bad_rule_types : UpdateState → Bool
bad_rule_types state =
    not (all (λ t. contains t managed_rule_types) state.rule_types)
    || has_duplicates state.rule_types

abbrev pub mismatched : UpdateState → Bool
mismatched state =
    not (
      bool_eq (contains (codes "pull_request") state.rule_types) (not (is_null state.pull_request)))
    || not (
        bool_eq (contains (codes "required_status_checks") state.rule_types)
          (not (is_null state.required_status_checks)))

-- `_validate_update_state`
unfoldable pub validate_update_state : Ruleset → Settings → M ValidState
unfolding has_duplicates
validate_update_state managed settings = do
  raise_if (not (is_positive managed.id)) bad_ruleset_id
  state ← require managed.update_state no_update_detail
  raise_if (unpreserved settings state) unpreservable
  raise_if (bad_rule_types state) bad_rule_inventory
  pull ← read_pull state.pull_request
  raise_if (mismatched state) state_mismatch
  checks ← read_checks state.required_status_checks
  ok (record { pull = pull; checks = checks })

-- A pull request rule that the payload asks for.
pub record PullRule : Type 0 where
  pub dismiss_stale : Bool
  pub code_owner : Bool
  pub last_push : Bool
  pub approvals : ℕ
  pub thread_resolution : Bool
  pub methods : Option (List Text)

-- The body of the write: the conditions, the pull request rule and the required checks. Its other
-- fields are constants: no bypass actors, active enforcement, strict checks and no force pushes.
pub record Payload : Type 0 where
  pub include : Text
  pub pull : PullRule
  pub checks : List CheckState

-- `integration_ids.get(context)`: of equal contexts the last.
unfoldable pub integration_of : Text → List CheckState → Option ℕ
integration_of context [] = none
integration_of context (c ∷ cs) =
    let later = integration_of context cs in
    if contains context (contexts cs)
    then later
    else if c.context == context
    then c.integration
    else none

abbrev pub checks_of : Option ValidState → List CheckState
checks_of none = []
checks_of (some state) = elim state.checks [ none ↦ [] | some cs ↦ cs ]

abbrev pub pull_of : Option ValidState → Option PullState
pull_of none = none
pull_of (some state) = state.pull

unfoldable pub required : List CheckState → List Text → List CheckState
unfolding integration_of
required cs [] = []
required cs (context ∷ more) =
    record { context = context; integration = integration_of context cs } ∷ required cs more

unfoldable pub pull_rule : Settings → Option PullState → PullRule
pull_rule s none = record {
  dismiss_stale = false;
  code_owner = false;
  last_push = s.require_last_push_approval;
  approvals = s.required_approvals;
  thread_resolution = true;
  methods = none;
}
pull_rule s (some current) = record {
  dismiss_stale = current.dismiss_stale;
  code_owner = current.code_owner;
  last_push = s.require_last_push_approval;
  approvals = s.required_approvals;
  thread_resolution = true;
  methods = current.methods;
}

-- `_ruleset_payload`
unfoldable pub ruleset_payload : Settings → Option ValidState → Payload
unfolding required pull_rule sorted
ruleset_payload s state = record {
  include = branch_ref s.target_branch;
  pull = pull_rule s (pull_of state);
  checks = required (checks_of state) (sorted s.checks);
}

unfoldable integration_field : Option ℕ → Fields
integration_field none = end
integration_field (some n) = field (codes "integration_id") (int (pos n)) end

unfoldable pub payload_check : CheckState → Value
unfolding integration_field
payload_check c = obj (field (codes "context") (str c.context) (integration_field c.integration))

unfoldable pub payload_checks : List CheckState → List Value
unfolding payload_check
payload_checks [] = []
payload_checks (c ∷ cs) = payload_check c ∷ payload_checks cs

unfoldable methods_field : Option (List Text) → Fields
methods_field none = end
methods_field (some methods) = field (codes "allowed_merge_methods") (text_values methods) end

unfoldable pub pull_parameters : PullRule → Value
unfolding methods_field
pull_parameters r = obj (
    field (codes "dismiss_stale_reviews_on_push") (bool r.dismiss_stale) (
      field (codes "require_code_owner_review") (bool r.code_owner) (
        field (codes "require_last_push_approval") (bool r.last_push) (
          field (codes "required_approving_review_count") (int (pos r.approvals)) (
            field (codes "required_review_thread_resolution") (bool r.thread_resolution)
              (methods_field r.methods))))))

unfoldable rule_of : Text → Fields → Value
rule_of rule_type parameters =
    obj (from_entries (entries parameters ++ ((codes "type", str rule_type) ∷ [])))

-- The payload as the dict that the script sends.
unfoldable pub payload_value : Payload → Fields
unfolding payload_checks pull_parameters rule_of
payload_value p = field (codes "bypass_actors") (arr nil) (
    field (codes "conditions")
      (obj (
        field (codes "ref_name")
          (obj (
            field (codes "exclude") (arr nil)
              (field (codes "include") (arr (cons (str p.include) nil)) end)))
          end))
      (field (codes "enforcement") (str (codes "active")) (
        field (codes "name") (str managed_ruleset_name) (
          field (codes "rules")
            (arr (
              cons
                (rule_of (codes "pull_request")
                  (field (codes "parameters") (pull_parameters p.pull) end))
                (cons
                  (rule_of (codes "required_status_checks") (
                    field (codes "parameters")
                      (obj (
                        field (codes "required_status_checks")
                          (arr (from_items (payload_checks p.checks)))
                          (field (codes "strict_required_status_checks_policy") (bool true) end)))
                      end))
                  (cons (rule_of (codes "non_fast_forward") end) nil))))
            (field (codes "target") (str (codes "branch")) end)))))
