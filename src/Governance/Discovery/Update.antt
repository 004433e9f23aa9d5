-- ===== src/Governance/Discovery/Update.antt =====
-- The managed ruleset through an update: from the payload over the discovery to the next payload.
pub mod Readers
use chat_chart.Base.{
  ◌≡◌, refl, true, false, ◌∷◌, [], Text, Option, List, all, some, contains, none, Bool-cases, arith,
  inl, inr, has_duplicates, sort_by, sorted, ℕ, ap, pos, any, ◌∙◌, suc, sort_by-any,
  sorted-duplicates, entries, text_le, is_empty, ok, ◌||◌, Value, not, Option-cases, >>=-eq-ok,
  subst, raise_if, ok-injective, arr, obj, require, items, codes, require-eq-ok, bool, int, real,
  str, null,
}
use chat_chart.Governance.Ruleset.{
  Payload, integration_of, ValidState, required, PullState, CheckState, ruleset_payload, checks_of,
  pull_of, branch_ref, pull_rule, contexts, payload_value, validate_update_state, read_pull,
  read_all, read_check, read_methods, merge_methods, read_checks, pull_fields, read_flag,
  is_positive, unpreserved, bad_rule_types, mismatched,
}
use chat_chart.Governance.Settings.{Settings, object, get_item}
use chat_chart.Governance.Policy.Layers.{IsValidSettings}
use chat_chart.Governance.Discovery.RoundTrip.{
  kept_pull, validate_update_state-read, managed_update_state-payload,
}
use chat_chart.Governance.Discovery.RoundTrip.Checks.{
  contexts-required, integration_valid, required-in_order, required-AreChecks, AreChecks,
}
use chat_chart.Governance.Discovery.RoundTrip.Methods.{methods_of, methods_valid, sorted_methods}
use chat_chart.Governance.Inventory.{Ruleset}
use chat_chart.Governance.Discovery.UpdateState.{context_le, managed_update_state}
use chat_chart.Governance.Errors.{
  bad_ruleset_id, no_update_detail, bad_status_checks, unpreservable, bad_rule_inventory,
  state_mismatch,
}
use chat_chart.Governance.Discovery.Update.Readers.{
  methods-valid, read_methods-valid, read_pull-valid, read_check-valid, read_all-valid, checked,
  all-checked, read_checks-valid,
}

-- What an update carries over: positive integrations, and different merge methods.
pub record IsUpdatable (state : Option ValidState) : Type 0 where
  pub integrations : all (λ c. integration_valid c.integration) (checks_of state) ≡ true
  pub methods : methods_valid (methods_of (pull_of state)) ≡ true

integration_of-required :
    (t : Text) (cs : List CheckState) (ts : List Text)
    → contains t ts ≡ true
    → integration_of t (required cs ts) ≡ integration_of t cs
unfolding integration_of required
integration_of-required t cs [] h = cc
integration_of-required t cs (u ∷ ts) h = elim (Bool-cases (contains t ts)) [
  | inl later ↦ rw (contexts-required cs ts, later) (integration_of-required t cs ts later)
  | inr last ↦ rw (contexts-required cs ts, last) (ground arith)
]

required-required :
    (cs : List CheckState) (ts us : List Text)
    → all (λ u. contains u ts) us ≡ true
    → required (required cs ts) us ≡ required cs us
unfolding required
required-required cs ts [] h = refl
required-required cs ts (u ∷ us) h =
    rw (integration_of-required u cs ts (ground arith), required-required cs ts us (ground arith))
      refl

all-contains_more :
    (x : Text) (xs ts : List Text)
    → all (λ t. contains t xs) ts ≡ true
    → all (λ t. contains t (x ∷ xs)) ts ≡ true
all-contains_more x xs [] h = refl
all-contains_more x xs (t ∷ ts) h = ground (arith, all-contains_more x xs ts)

all-contains_self : (ts : List Text) → all (λ t. contains t ts) ts ≡ true
all-contains_self [] = refl
all-contains_self (t ∷ ts) = ground (arith, all-contains_more t ts ts (all-contains_self ts))

-- What is read back of a payload.
abbrev pub kept : Payload → ValidState
kept p = record { pull = some (kept_pull p.pull); checks = some p.checks }

pull_rule-methods :
    (s : Settings) (pull : Option PullState) → (pull_rule s pull).methods ≡ methods_of pull
unfolding pull_rule
pull_rule-methods s none = refl
pull_rule-methods s (some r) = refl

pull_rule-kept :
    (s : Settings) (pull : Option PullState)
    → pull_rule s (some (kept_pull (pull_rule s pull)))
      ≡ record (pull_rule s pull) { methods = sorted_methods (pull_rule s pull).methods }
unfolding pull_rule
pull_rule-kept s none = refl
pull_rule-kept s (some r) = refl

module _ (s : Settings) (state : Option ValidState) (valid : IsValidSettings s)
    (updatable : IsUpdatable state) where
  payload-methods : methods_valid (ruleset_payload s state).pull.methods ≡ true
  unfolding ruleset_payload
  payload-methods = rw (pull_rule-methods s (pull_of state)) updatable.methods

  payload-AreChecks : AreChecks [] (ruleset_payload s state).checks
  unfolding ruleset_payload sorted
  payload-AreChecks =
      required-AreChecks (checks_of state) [] (sorted s.checks) updatable.integrations
        (sort_by-any text_le is_empty s.checks ∙ valid.named_checks)
        (sorted-duplicates s.checks ∙ valid.distinct_checks) (none_seen (sorted s.checks))
    where
      none_seen : (ts : List Text) → any (λ t. contains t []) ts ≡ false
      none_seen [] = refl
      none_seen (t ∷ ts) = none_seen ts

  payload-in_order :
      sort_by context_le (ruleset_payload s state).checks ≡ (ruleset_payload s state).checks
  unfolding ruleset_payload
  payload-in_order = required-in_order (checks_of state) s.checks

  payload-distinct : has_duplicates (contexts (ruleset_payload s state).checks) ≡ false
  unfolding ruleset_payload
  payload-distinct =
      ap has_duplicates (contexts-required (checks_of state) (sorted s.checks))
      ∙ sorted-duplicates s.checks
      ∙ valid.distinct_checks

  included : (ruleset_payload s state).include ≡ branch_ref s.target_branch
  unfolding ruleset_payload
  included = refl

  again :
      ruleset_payload s (some (kept (ruleset_payload s state))) ≡ record (ruleset_payload s state) {
        pull = record (ruleset_payload s state).pull {
          methods = sorted_methods (ruleset_payload s state).pull.methods;
        };
      }
  unfolding ruleset_payload
  again =
      rw
        (
          pull_rule-kept s (pull_of state),
          required-required (checks_of state) (sorted s.checks) (sorted s.checks)
              (all-contains_self (sorted s.checks)),
        )
        refl

  -- The payload that the script writes for valid settings, and a state that it has accepted before, is
  -- read back by the discovery as a state that it accepts again. The next payload over that state is
  -- the same, but that its merge methods are sorted.
  pub ruleset_payload-roundtrip :
      (managed : Ruleset) (n : ℕ)
      → managed.id ≡ pos (suc n)
      → managed.update_state
        ≡ some (managed_update_state (entries (payload_value (ruleset_payload s state))))
      → (validate_update_state managed s ≡ ok (kept (ruleset_payload s state)))
        × (ruleset_payload s (some (kept (ruleset_payload s state)))
            ≡ record (ruleset_payload s state) {
              pull = record (ruleset_payload s state).pull {
                methods = sorted_methods (ruleset_payload s state).pull.methods;
              };
            })
  ruleset_payload-roundtrip managed n i u = (
    validate_update_state-read managed s (ruleset_payload s state) n i
        (u
          ∙ ap some (
              managed_update_state-payload (ruleset_payload s state) payload-methods
                payload-AreChecks payload-in_order))
        included payload-methods payload-AreChecks payload-distinct,
    again,
  )

-- Every state that `_validate_update_state` accepts can be carried over.
pub validate_update_state-IsUpdatable :
    (managed : Ruleset) (s : Settings) {v : ValidState}
    → validate_update_state managed s ≡ ok v
    → IsUpdatable (some v)
unfolding validate_update_state
validate_update_state-IsUpdatable managed s {v} h =
    let (_, _, h1) = >>=-eq-ok (raise_if (not (is_positive managed.id)) bad_ruleset_id) _ h in
    let (state, _, h2) = >>=-eq-ok (require managed.update_state no_update_detail) _ h1 in
    let (_, _, h3) = >>=-eq-ok (raise_if (unpreserved s state) unpreservable) _ h2 in
    let (_, _, h4) = >>=-eq-ok (raise_if (bad_rule_types state) bad_rule_inventory) _ h3 in
    let (pull, e, h5) = >>=-eq-ok (read_pull state.pull_request) _ h4 in
    let (_, _, h6) = >>=-eq-ok (raise_if (mismatched state) state_mismatch) _ h5 in
    let (checks, f, h7) = >>=-eq-ok (read_checks state.required_status_checks) _ h6 in
    subst (λ w. IsUpdatable (some w)) (ok-injective h7)
      (record {
        integrations = all-checked pull checks (read_checks-valid state.required_status_checks f);
        methods = read_pull-valid state.pull_request e;
      })
