-- ===== src/Governance/Discovery/RoundTrip.antt =====
-- `_ruleset_payload` and `_managed_update_state`: what the script writes it reads back.
pub mod Checks
pub mod Methods
use chat_chart.Base.{
  zero, suc, ◌≡◌, refl, true, false, ◌∷◌, [], List, Option, Text, ℕ, Bool, some, is_empty, contains,
  arith, text_dec, ok, none, any, sorted, has_duplicates, sort_by, InOrder, all, text_le,
  sort_by_lem, sort_by-InOrder, text_le_total, not, Value, ◌||◌, null, obj, field, codes, bool, end,
  sort_by-all, sorted-duplicates, sort_by-is_empty, arr, nil, from_items, entries, cons,
  items-from_items, str, ◌==◌, sorted_minus, pos, ◌&&◌, lookup, subst, sym, ◌∙◌,
}
use chat_chart.Governance.Ruleset.{
  CheckState, payload_check, integration_of, read_check, read_all, required, payload_checks,
  contexts, read_methods, PullRule, pull_parameters, merge_methods, Payload, payload_value,
  validate_update_state, PullState, read_checks, read_pull, branch_ref, expected_conditions,
}
use chat_chart.Governance.Settings.{text_list, all_str, Settings}
use chat_chart.Governance.Compare.{text_values}
use chat_chart.Governance.Discovery.UpdateState.{
  normal_check, normal_checks, check_values, check_value, context_le, pull_methods,
  pull_update_state, checks_update_state, managed_update_state,
}
use chat_chart.Governance.Inventory.{UpdateState, Ruleset, value_eq}
use chat_chart.Governance.Discovery.RoundTrip.Checks.{
  text_list-text_values, integration_valid, normal_check-payload, read_check_value,
  normal_checks-payload, read_all-check_values, contexts-required, integration_of-valid,
  unseen_more, required-AreChecks, required-InOrder, required-in_order, AreChecks,
}
use chat_chart.Governance.Discovery.RoundTrip.Methods.{
  methods_valid, sorted_methods, methods_value, read_methods-texts, sorted-is_empty, sorted-all,
  sorted-methods_valid, pull_methods-none, pull_methods-payload,
}

-- The state that the script reads of a pull request rule.
pull_read : PullRule → Value
unfolding methods_value
pull_read r = obj (
    field (codes "allowed_merge_methods") (methods_value (sorted_methods r.methods)) (
      field (codes "dismiss_stale_reviews_on_push") (bool r.dismiss_stale) (
        field (codes "require_code_owner_review") (bool r.code_owner)
          (field (codes "required_review_thread_resolution") (bool r.thread_resolution) end))))

pull_update_state-payload :
    (dismiss owner last thread : Bool) (n : ℕ) (methods : Option (List Text))
    → methods_valid methods ≡ true
    → pull_update_state (
        some (
          pull_parameters (record {
            dismiss_stale = dismiss;
            code_owner = owner;
            last_push = last;
            approvals = n;
            thread_resolution = thread;
            methods = methods;
          })))
      ≡ (
        pull_read (record {
          dismiss_stale = dismiss;
          code_owner = owner;
          last_push = last;
          approvals = n;
          thread_resolution = thread;
          methods = methods;
        }),
        [],
      )
unfolding pull_update_state pull_parameters pull_read text_dec
pull_update_state-payload dismiss owner last thread n none h = rw pull_methods-none refl
pull_update_state-payload dismiss owner last thread n (some ms) h =
    rw (pull_methods-payload ms h) refl

checks_update_state-payload :
    (cs : List CheckState)
    → AreChecks [] cs
    → sort_by context_le cs ≡ cs
    → checks_update_state (
        some (
          obj (
            field
              (codes "required_status_checks")
              (arr (from_items (payload_checks cs)))
              (field (codes "strict_required_status_checks_policy") (bool true) end))))
      ≡ (arr (from_items (check_values cs)), [])
unfolding checks_update_state text_dec
checks_update_state-payload cs h s =
    rw (items-from_items (payload_checks cs), normal_checks-payload [] cs h, s) refl

-- The state that the script reads of what it wrote.
pub state_read : Payload → UpdateState
state_read p = record {
  conditions = obj (
      field (codes "exclude") (arr nil)
        (field (codes "include") (arr (cons (str p.include) nil)) end));
  pull_request = pull_read p.pull;
  required_status_checks = arr (from_items (check_values p.checks));
  rule_types =
      codes "non_fast_forward" ∷ codes "pull_request" ∷ codes "required_status_checks" ∷ [];
  unsupported = [];
}

pub managed_update_state-payload :
    (p : Payload)
    → methods_valid p.pull.methods ≡ true
    → AreChecks [] p.checks
    → sort_by context_le p.checks ≡ p.checks
    → managed_update_state (entries (payload_value p)) ≡ state_read p
unfolding managed_update_state payload_value text_dec state_read
managed_update_state-payload p m c s =
    rw
      (
        pull_update_state-payload p.pull.dismiss_stale p.pull.code_owner p.pull.last_push
            p.pull.thread_resolution p.pull.approvals p.pull.methods m,
        checks_update_state-payload p.checks c s,
      )
      refl

read_methods-null : read_methods null ≡ ok none
unfolding read_methods
read_methods-null = refl

-- What the next update keeps of a pull request rule.
abbrev pub kept_pull : PullRule → PullState
kept_pull r = record {
  methods = sorted_methods r.methods;
  dismiss_stale = r.dismiss_stale;
  code_owner = r.code_owner;
  thread_resolution = r.thread_resolution;
}

read_pull-pull_read :
    (dismiss owner last thread : Bool) (n : ℕ) (methods : Option (List Text))
    → methods_valid methods ≡ true
    → read_pull (
        pull_read (record {
          dismiss_stale = dismiss;
          code_owner = owner;
          last_push = last;
          approvals = n;
          thread_resolution = thread;
          methods = methods;
        }))
      ≡ ok (
          some (record {
            methods = sorted_methods methods;
            dismiss_stale = dismiss;
            code_owner = owner;
            thread_resolution = thread;
          }))
unfolding read_pull pull_read text_dec sorted_minus
read_pull-pull_read dismiss owner last thread n none h = rw read_methods-null refl
read_pull-pull_read dismiss owner last thread n (some ms) h =
    rw (read_methods-texts (sorted ms) (sorted-methods_valid ms h)) refl

read_checks-check_values :
    (cs : List CheckState)
    → AreChecks [] cs
    → has_duplicates (contexts cs) ≡ false
    → read_checks (arr (from_items (check_values cs))) ≡ ok (some cs)
unfolding read_checks
read_checks-check_values cs h d =
    rw (items-from_items (check_values cs), read_all-check_values [] cs h, d) refl

abbrev conditions_of : Text → Value
conditions_of include =
    obj (
      field (codes "exclude") (arr nil)
        (field (codes "include") (arr (cons (str include) nil)) end))

conditions_test :
    (t : Text) → value_eq (conditions_of t) (conditions_of t) ≡ (((t == t) && true) && true)
unfolding value_eq lookup text_dec
conditions_test t = refl

text_same : (t : Text) → (((t == t) && true) && true) ≡ true
text_same t = ground arith

conditions-eq :
    (s : Settings) (include : Text)
    → include ≡ branch_ref s.target_branch
    → value_eq (conditions_of include) (expected_conditions s) ≡ true
unfolding expected_conditions
conditions-eq s include b =
    subst (λ t. value_eq (conditions_of t) (expected_conditions s) ≡ true) (sym b)
      (conditions_test (branch_ref s.target_branch) ∙ text_same (branch_ref s.target_branch))

pub validate_update_state-read :
    (managed : Ruleset) (s : Settings) (p : Payload) (n : ℕ)
    → managed.id ≡ pos (suc n)
    → managed.update_state ≡ some (state_read p)
    → p.include ≡ branch_ref s.target_branch
    → methods_valid p.pull.methods ≡ true
    → AreChecks [] p.checks
    → has_duplicates (contexts p.checks) ≡ false
    → validate_update_state managed s
      ≡ ok (record { pull = some (kept_pull p.pull); checks = some p.checks })
unfolding validate_update_state state_read text_dec pull_read
validate_update_state-read managed s p n i u b m c d =
    rw
      (
        i,
        u,
        conditions-eq s p.include b,
        read_pull-pull_read p.pull.dismiss_stale p.pull.code_owner p.pull.last_push
            p.pull.thread_resolution p.pull.approvals p.pull.methods m,
        read_checks-check_values p.checks c d,
      )
      refl
