-- ===== src/Governance/Discovery/Update/Readers.antt =====
-- What `_validate_update_state` accepts of merge methods and checks.
use chat_chart.Base.{
  ◌≡◌, refl, true, false, ◌∷◌, [], Text, Option, List, all, some, contains, none, arith, inl, inr,
  has_duplicates, is_empty, ok, ◌||◌, Value, not, Option-cases, >>=-eq-ok, subst, raise_if,
  ok-injective, arr, obj, require, items, codes, require-eq-ok, bool, int, real, str, null,
}
use chat_chart.Governance.Ruleset.{
  PullState, CheckState, checks_of, contexts, read_pull, read_all, read_check, read_methods,
  merge_methods, read_checks, pull_fields, read_flag,
}
use chat_chart.Governance.Settings.{object, get_item}
use chat_chart.Governance.Discovery.RoundTrip.Checks.{integration_valid}
use chat_chart.Governance.Discovery.RoundTrip.Methods.{methods_of, methods_valid}
use chat_chart.Governance.Errors.{bad_status_checks}

pub methods-valid :
    (ms : List Text)
    → (is_empty ms || not (all (λ m. contains m merge_methods) ms) || has_duplicates ms) ≡ false
    → methods_valid (some ms) ≡ true
methods-valid ms h = ground arith

pub read_methods-valid :
    (v : Value) {methods : Option (List Text)}
    → read_methods v ≡ ok methods
    → methods_valid methods ≡ true
unfolding read_methods
read_methods-valid v h = ground arith

pub read_pull-valid :
    (v : Value) {pull : Option PullState}
    → read_pull v ≡ ok pull
    → methods_valid (methods_of pull) ≡ true
unfolding read_pull
read_pull-valid null h = subst (λ p. methods_valid (methods_of p) ≡ true) (ok-injective h) refl
read_pull-valid (obj fs) h =
    let (d, _, h1) = >>=-eq-ok (object (obj fs) pull_fields false) _ h in
    let (dismiss, _, h2) = >>=-eq-ok (read_flag d (codes "dismiss_stale_reviews_on_push")) _ h1 in
    let (owner, _, h3) = >>=-eq-ok (read_flag d (codes "require_code_owner_review")) _ h2 in
    let (threads, _, h4) =
      >>=-eq-ok (read_flag d (codes "required_review_thread_resolution")) _ h3 in
    let (v, _, h5) = >>=-eq-ok (get_item d (codes "allowed_merge_methods")) _ h4 in
    let (methods, e, h6) = >>=-eq-ok (read_methods v) _ h5 in
    subst (λ p. methods_valid (methods_of p) ≡ true) (ok-injective h6) (read_methods-valid v e)
read_pull-valid (bool b) h = cc
read_pull-valid (int n) h = cc
read_pull-valid (real t) h = cc
read_pull-valid (str t) h = cc
read_pull-valid (arr vs) h = cc

pub read_check-valid :
    (v : Value) {c : CheckState} → read_check v ≡ some c → integration_valid c.integration ≡ true
unfolding read_check
read_check-valid v h = ground arith

pub read_all-valid :
    (vs : List Value) {cs : List CheckState}
    → read_all vs ≡ some cs
    → all (λ c. integration_valid c.integration) cs ≡ true
unfolding read_all
read_all-valid [] h = ground arith
read_all-valid (v ∷ vs) {cs} h = elim (Option-cases (read_check v)) [
  | inl none_read ↦ ground arith
  | inr (c, e) ↦ elim (Option-cases (read_all vs)) [
    | inl none_read ↦ ground arith
    | inr (rest, f) ↦ ground (arith, read_check-valid v {c = c} e, read_all-valid vs {cs = rest} f)
  ]
]

abbrev pub checked : Option (List CheckState) → List CheckState
checked none = []
checked (some cs) = cs

pub all-checked :
    (pull : Option PullState) (checks : Option (List CheckState))
    → all (λ c. integration_valid c.integration) (checked checks) ≡ true
    → all
        (λ c. integration_valid c.integration)
        (checks_of (some (record { pull = pull; checks = checks })))
      ≡ true
all-checked pull none h = h
all-checked pull (some cs) h = h

pub read_checks-valid :
    (v : Value) {checks : Option (List CheckState)}
    → read_checks v ≡ ok checks
    → all (λ c. integration_valid c.integration) (checked checks) ≡ true
unfolding read_checks
read_checks-valid null h =
    subst (λ l. all (λ c. integration_valid c.integration) (checked l) ≡ true) (ok-injective h) refl
read_checks-valid (arr vs) h =
    let (cs, e, h1) = >>=-eq-ok (require (read_all (items vs)) bad_status_checks) _ h in
    let (_, _, h2) = >>=-eq-ok (raise_if (has_duplicates (contexts cs)) bad_status_checks) _ h1 in
    subst (λ l. all (λ c. integration_valid c.integration) (checked l) ≡ true) (ok-injective h2)
      (read_all-valid (items vs) (require-eq-ok _ _ e))
read_checks-valid (obj fs) h = cc
read_checks-valid (bool b) h = cc
read_checks-valid (int n) h = cc
read_checks-valid (real t) h = cc
read_checks-valid (str t) h = cc
