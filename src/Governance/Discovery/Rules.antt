-- ===== src/Governance/Discovery/Rules.antt =====
-- scripts/github_governance.py: `_safe_rule_parameters` and `_normalize_rules`.
use chat_chart.Base.{
  Option, none, some, List, [], ◌∷◌, ok, ◌>>=◌, if◌then◌else◌, ◌==◌, Value, lookup, sorted, sort_by,
  obj, require, text_le, Text, arr, field, Dict, traverse, str, as_dict, items, codes, as_str,
  from_entries, entries, end,
}
use chat_chart.Governance.Settings.{M}
use chat_chart.Governance.Gh.{Gh, get_in, known_int, known_bool, known_str}
use chat_chart.Governance.Inventory.{Rule, unknown_value}
use chat_chart.Governance.Errors.{bad_rule}
use chat_chart.Governance.Compare.{text_values}

-- The contexts of the checks, if each is a dict with a text there.
all_contexts : List Value → Option (List Text)
unfolding get_in
all_contexts [] = some []
all_contexts (v ∷ vs) = both (get_in (some v) (codes "context")) (all_contexts vs)
  where
    both : Option Value → Option (List Text) → Option (List Text)
    both (some (str t)) (some ts) = some (t ∷ ts)
    both _ _ = none

context_values : Option Value → Value
unfolding all_contexts sorted
context_values (some (arr vs)) = elim (all_contexts (items vs)) [
  | none ↦ unknown_value
  | some ts ↦ text_values (sorted ts)
]
context_values _ = unknown_value

-- The parameters that are kept of a rule with the given type and parameters.
safe_parameters : Text → Dict → Dict
unfolding lookup context_values
safe_parameters rule_type parameters =
    if rule_type == codes "pull_request"
    then (
      codes "required_approving_review_count",
      known_int (lookup (codes "required_approving_review_count") parameters),
    )
      ∷ (
        codes "require_last_push_approval",
        known_bool (lookup (codes "require_last_push_approval") parameters),
      )
      ∷ []
    else if rule_type == codes "required_status_checks"
    then (codes "contexts", context_values (lookup (codes "required_status_checks") parameters))
      ∷ (
        codes "strict",
        known_bool (lookup (codes "strict_required_status_checks_policy") parameters),
      )
      ∷ []
    else []

-- `_safe_rule_parameters`
unfoldable safe_rule_parameters : Text → Dict → Dict
unfolding safe_parameters lookup
safe_rule_parameters rule_type rule = elim (lookup (codes "parameters") rule) [
  | some (obj fs) ↦ safe_parameters rule_type (entries fs)
  | _ ↦ []
]

-- One rule of `_normalize_rules`.
unfoldable normalize_rule : Value → M Rule
unfolding safe_rule_parameters lookup
normalize_rule value = do
  rule ← require (as_dict value) bad_rule
  type_value ← require (lookup (codes "type") rule) bad_rule
  rule_type ← require (as_str type_value) bad_rule
  ok (record {
    rule_type = rule_type;
    ruleset_id = known_int (lookup (codes "ruleset_id") rule);
    source = known_str (lookup (codes "ruleset_source") rule);
    source_type = known_str (lookup (codes "ruleset_source_type") rule);
    parameters = safe_rule_parameters rule_type rule;
  })

-- A rule as the dict that the script keeps.
abbrev rule_value : Rule → Value
rule_value rule = obj (
    field (codes "parameters") (obj (from_entries rule.parameters)) (
      field (codes "ruleset_id") rule.ruleset_id (
        field (codes "source") (str rule.source) (
          field (codes "source_type") (str rule.source_type)
            (field (codes "type") (str rule.rule_type) end)))))

-- `_normalize_rules`
unfoldable pub normalize_rules : Gh → List Value → M (List Rule)
unfolding normalize_rule sort_by text_le
normalize_rules G values = do
  rules ← traverse normalize_rule values
  ok (sort_by (λ a b. text_le (G.dumps (rule_value a)) (G.dumps (rule_value b))) rules)
