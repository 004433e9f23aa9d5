-- ===== src/Governance/Discovery/UpdateState.antt =====
-- scripts/github_governance.py: `_update_conditions`, `_pull_update_state`, `_checks_update_state` and
-- `_managed_update_state`, which note what a later update of the ruleset could not preserve.
use chat_chart.Base.{
  nil, ℕ, Bool, true, false, not, ◌&&◌, ◌||◌, Option, none, some, List, [], ◌∷◌, ◌++◌, Result, ok,
  err, ◌>>=◌, ◌>>◌, if◌then◌else◌, ◌==◌, Value, Dict, lookup, Text, sorted, obj, bool, str, null,
  codes, text_le, arr, sort_by, contains, field, require, int, all, items, entries, keys, pos, end,
  as_dict, as_list, from_items, raise_if, as_str, is_empty,
}
use chat_chart.Governance.Inventory.{UpdateState, unknown_value}
use chat_chart.Governance.Ruleset.{CheckState, read_methods, read_integration, managed_rule_types}
use chat_chart.Governance.Gh.{get_in, known_bool}
use chat_chart.Governance.Settings.{text_list}
use chat_chart.Governance.Discovery.Security.{sorted_set}
use chat_chart.Governance.Compare.{text_values}
use chat_chart.Governance.Policy.{same_set}

-- A value with what was appended to `unsupported` while it was read.
abbrev pub Noted : Type 0
Noted = Value × List Text

-- A note ends the reading, and `UNKNOWN` is returned.
abbrev noted : Result Text Value → Noted
noted (ok v) = (v, [])
noted (err note) = (unknown_value, note ∷ [])

-- `if test: unsupported.append(note)`
abbrev note_if : Bool → Text → List Text
note_if true note = note ∷ []
note_if false note = []

abbrev invalid_conditions : Text
invalid_conditions = codes "invalid_conditions"

unfoldable read_conditions : Dict → Result Text Value
unfolding lookup text_list sorted_set
read_conditions detail = do
  value ← require (lookup (codes "conditions") detail) invalid_conditions
  conditions ← require (as_dict value) invalid_conditions
  ref_value ← require (lookup (codes "ref_name") conditions) invalid_conditions
  ref_name ← require (as_dict ref_value) invalid_conditions
  raise_if
      (not (same_set (keys conditions) (codes "ref_name" ∷ []))
        || not (same_set (keys ref_name) (codes "exclude" ∷ codes "include" ∷ [])))
      invalid_conditions
  include_value ← require (lookup (codes "include") ref_name) invalid_conditions
  exclude_value ← require (lookup (codes "exclude") ref_name) invalid_conditions
  include ← require (text_list include_value) invalid_conditions
  exclude ← require (text_list exclude_value) invalid_conditions
  ok (
      obj (
        field (codes "exclude") (text_values (sorted_set exclude))
          (field (codes "include") (text_values (sorted_set include)) end)))

-- `_update_conditions`
unfoldable update_conditions : Dict → Noted
unfolding read_conditions
update_conditions detail = noted (read_conditions detail)

abbrev pull_parameter_fields : List Text
pull_parameter_fields =
    codes "allowed_merge_methods"
    ∷ codes "dismiss_stale_reviews_on_push"
    ∷ codes "dismissal_restriction"
    ∷ codes "require_code_owner_review"
    ∷ codes "require_last_push_approval"
    ∷ codes "required_approving_review_count"
    ∷ codes "required_review_thread_resolution"
    ∷ codes "required_reviewers"
    ∷ []

-- `x in (None, {})` and `x in (None, [])`, where a missing key is `None`.
abbrev is_none_or_empty_dict : Option Value → Bool
is_none_or_empty_dict none = true
is_none_or_empty_dict (some null) = true
is_none_or_empty_dict (some (obj end)) = true
is_none_or_empty_dict _ = false

abbrev is_none_or_empty_list : Option Value → Bool
is_none_or_empty_list none = true
is_none_or_empty_list (some null) = true
is_none_or_empty_list (some (arr nil)) = true
is_none_or_empty_list _ = false

abbrev is_false : Option Value → Bool
is_false (some (bool false)) = true
is_false _ = false

-- The dismissal of reviews is restricted to nobody.
unfoldable no_restriction : Option Value → Bool
unfolding lookup
no_restriction (some (obj fs)) =
    is_none_or_empty_dict (some (obj fs))
    || (all (λ k. contains k (codes "allowed_actors" ∷ codes "enabled" ∷ [])) (keys (entries fs))
        && is_false (lookup (codes "enabled") (entries fs))
        && is_none_or_empty_list (lookup (codes "allowed_actors") (entries fs)))
no_restriction v = is_none_or_empty_dict v

-- The methods, where a missing key is `None`.
unfoldable pub pull_methods : Option Value → Noted
unfolding sorted
pull_methods none = (null, [])
pull_methods (some v) = elim (read_methods v) [
  | ok none ↦ (null, [])
  | ok (some methods) ↦ (text_values (sorted methods), [])
  | err _ ↦ (unknown_value, codes "invalid_allowed_merge_methods" ∷ [])
]

unfoldable pull_state : Dict → Noted
unfolding lookup no_restriction
pull_state d =
    let (methods, methods_note) = pull_methods (lookup (codes "allowed_merge_methods") d) in
    (
      obj (
          field (codes "allowed_merge_methods") methods (
            field (codes "dismiss_stale_reviews_on_push")
              (known_bool (lookup (codes "dismiss_stale_reviews_on_push") d))
              (field (codes "require_code_owner_review")
                (known_bool (lookup (codes "require_code_owner_review") d))
                (field (codes "required_review_thread_resolution")
                  (known_bool (lookup (codes "required_review_thread_resolution") d)) end)))),
      note_if (not (all (λ k. contains k pull_parameter_fields) (keys d)))
            (codes "unsupported_pull_request_parameters")
          ++ (note_if (not (no_restriction (lookup (codes "dismissal_restriction") d)))
                (codes "review_dismissal_restriction")
              ++ (note_if (not (is_none_or_empty_list (lookup (codes "required_reviewers") d)))
                    (codes "required_reviewers")
                  ++ methods_note)),
    )

-- `_pull_update_state`
unfoldable pub pull_update_state : Option Value → Noted
unfolding pull_state
pull_update_state (some (obj fs)) = pull_state (entries fs)
pull_update_state _ = (unknown_value, codes "invalid_pull_request_parameters" ∷ [])

abbrev status_parameter_fields : List Text
status_parameter_fields =
    codes "do_not_enforce_on_create"
    ∷ codes "required_status_checks"
    ∷ codes "strict_required_status_checks_policy"
    ∷ []

unfoldable or_null : Option Value → Value
or_null none = null
or_null (some v) = v

abbrev invalid_checks : Text
invalid_checks = codes "invalid_required_status_checks"

-- One check, behind checks with the given contexts.
unfoldable pub normal_check : List Text → Value → Result Text CheckState
unfolding lookup or_null read_integration
normal_check seen value = do
  d ← require (as_dict value) invalid_checks
  raise_if (not (all (λ k. contains k (codes "context" ∷ codes "integration_id" ∷ [])) (keys d)))
      invalid_checks
  context_value ← require (lookup (codes "context") d) invalid_checks
  context ← require (as_str context_value) invalid_checks
  raise_if (is_empty context || contains context seen) invalid_checks
  integration ←
      require (read_integration (or_null (lookup (codes "integration_id") d))) invalid_checks
  ok (record { context = context; integration = integration })

-- The loop over the checks.
unfoldable pub normal_checks : List Text → List Value → Result Text (List CheckState)
unfolding normal_check
normal_checks seen [] = ok []
normal_checks seen (v ∷ vs) = do
  c ← normal_check seen v
  rest ← normal_checks (c.context ∷ seen) vs
  ok (c ∷ rest)

abbrev integration_value : Option ℕ → Value
integration_value none = null
integration_value (some n) = int (pos n)

abbrev pub check_value : CheckState → Value
check_value c = obj (
    field (codes "context") (str c.context)
      (field (codes "integration_id") (integration_value c.integration) end))

abbrev pub check_values : List CheckState → List Value
check_values [] = []
check_values (c ∷ cs) = check_value c ∷ check_values cs

abbrev pub context_le : CheckState → CheckState → Bool
context_le a b = text_le a.context b.context

unfoldable checks_state : Dict → Noted
unfolding lookup
checks_state d =
    let (v, notes) = noted (
      require (lookup (codes "required_status_checks") d) invalid_checks >>= λ value.
      require (as_list value) invalid_checks >>= λ vs.
      normal_checks [] vs >>= λ cs. ok (arr (from_items (check_values (sort_by context_le cs))))) in
    (
      v,
      note_if (not (all (λ k. contains k status_parameter_fields) (keys d)))
            (codes "unsupported_status_check_parameters")
          ++ notes,
    )

-- `_checks_update_state`
unfoldable pub checks_update_state : Option Value → Noted
unfolding checks_state
checks_update_state (some (obj fs)) = checks_state (entries fs)
checks_update_state _ = (unknown_value, codes "invalid_status_check_parameters" ∷ [])

-- The variables of the loop over the rules.
pub record Scan : Type 0 where
  pub seen : List Text
  pub pull : Value
  pub checks : Value
  pub notes : List Text

-- A rule of a type that was not seen before.
unfoldable scan_new : Scan → Text → Option Value → Scan
scan_new s rule_type parameters =
    let (pull, pull_notes) = pull_update_state parameters in
    let (checks, checks_notes) = checks_update_state parameters in
    if rule_type == codes "pull_request"
    then record s { seen = rule_type ∷ s.seen; pull = pull; notes = s.notes ++ pull_notes }
    else if rule_type == codes "required_status_checks"
    then record s { seen = rule_type ∷ s.seen; checks = checks; notes = s.notes ++ checks_notes }
    else record s {
      seen = rule_type ∷ s.seen;
      notes =
          s.notes
          ++ note_if (not (is_none_or_empty_dict parameters))
              (codes "unsupported_non_fast_forward_parameters");
    }

-- A rule with the given type and parameters.
unfoldable scan_typed : Scan → Option Value → Option Value → Scan
unfolding scan_new
scan_typed s (some (str rule_type)) parameters =
    if not (contains rule_type managed_rule_types)
    then record s { notes = s.notes ++ (codes "unsupported_rule" ∷ []) }
    else if contains rule_type s.seen
    then record s { notes = s.notes ++ (codes "duplicate_rule" ∷ []) }
    else scan_new s rule_type parameters
scan_typed s _ parameters = record s { notes = s.notes ++ (codes "unsupported_rule" ∷ []) }

-- The loop over the rules.
unfoldable scan_rules : Scan → List Value → Scan
unfolding scan_typed get_in
scan_rules s [] = s
scan_rules s (rule ∷ rules) =
    scan_rules
      (scan_typed s (get_in (some rule) (codes "type")) (get_in (some rule) (codes "parameters")))
      rules

abbrev is_branch : Option Value → Bool
is_branch (some (str t)) = t == codes "branch"
is_branch _ = false

-- The state over the rules, if they are a list.
unfoldable state_of : Noted → List Text → Option Value → UpdateState
unfolding scan_rules sorted sorted_set
state_of (conditions, notes) target_notes (some (arr rules)) =
    let s =
      scan_rules (record { seen = []; pull = null; checks = null; notes = notes ++ target_notes })
        (items rules) in
    record {
      conditions = conditions;
      pull_request = s.pull;
      required_status_checks = s.checks;
      rule_types = sorted s.seen;
      unsupported = sorted_set s.notes;
    }
state_of (conditions, notes) target_notes _ = record {
  conditions = conditions;
  pull_request = null;
  required_status_checks = null;
  rule_types = [];
  unsupported = notes ++ (target_notes ++ (codes "invalid_rules" ∷ []));
}

-- `_managed_update_state`
unfoldable pub managed_update_state : Dict → UpdateState
unfolding update_conditions lookup state_of
managed_update_state detail =
    state_of (update_conditions detail)
      (note_if (not (is_branch (lookup (codes "target") detail))) (codes "unsupported_target"))
      (lookup (codes "rules") detail)
