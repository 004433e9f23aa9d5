-- ===== src/Governance/Policy/Layers.antt =====
-- `resolve_policy`: no layer can weaken the ones below it.
use chat_chart.Base.{
  ◌≤◌, ◌≡◌, refl, ap, ◌∙◌, ◌⊎◌, inl, inr, Bool, true, false, some, List, [], ◌∷◌, arith, ok, err,
  lookup, insert, Text, Value, is_empty, Dict, arr, from_items, has_duplicates, as_dict,
  items-from_items, contains, codes, Result-cases, entries-from_entries, >>=-eq-ok, any, raise_if,
  ◌++◌, not, require, as_str, subst, ok-injective, strip, ◌||◌, ◌==◌, none, Option, sym,
}
use chat_chart.Governance.Settings.{
  object, Settings, all_str, branch_name, required_checks, bad_branch, validate_settings, text_list,
  approvals, get_item, one_of, schema_version, setting_fields, is_control,
}
use chat_chart.Governance.Policy.{
  text_items, overlay, update, without, resolve_policy, resolve_settings, Policy, foundation_fields,
  check_groups, repository_checks, is_manager, read_minimums, repository_fields, resolve_layers,
  Minimums,
}
use chat_chart.Governance.Errors.{PolicyError, not_an_object, wrong_manager}
use chat_chart.Governance.Profiles.{profile_chain, Profile, merge_required_checks}
use chat_chart.Governance.Profiles.Merge.{merge_required_checks_lem}

all_str-text_items : (ts : List Text) → all_str (text_items ts) ≡ some ts
unfolding all_str
all_str-text_items [] = refl
all_str-text_items (t ∷ ts) = ground (arith, all_str-text_items ts)

required_checks_lem :
    (ts : List Text) {cs : List Text}
    → required_checks (arr (from_items (text_items ts))) ≡ ok cs
    → cs ≡ ts
unfolding required_checks text_list
required_checks_lem ts h = ground (arith, all_str-text_items ts, items-from_items (text_items ts))

lookup-insert_self : (k : Text) (v : Value) (d : Dict) → lookup k (insert k v d) ≡ some v
unfolding lookup insert
lookup-insert_self k v [] = ground arith
lookup-insert_self k v ((j, w) ∷ d) = ground (arith, lookup-insert_self k v d)

-- What a settings object has passed.
pub record IsValidSettings (s : Settings) : Type 0 where
  pub safe_branch : bad_branch s.target_branch ≡ false
  pub few_approvals : s.required_approvals ≤ 6
  pub approval_present : (s.require_last_push_approval ≡ true) → 1 ≤ s.required_approvals
  pub has_checks : is_empty s.checks ≡ false
  pub distinct_checks : has_duplicates s.checks ≡ false
  pub named_checks : any is_empty s.checks ≡ false
  pub known_title :
      contains s.squash_title (codes "PR_TITLE" ∷ codes "COMMIT_OR_PR_TITLE" ∷ []) ≡ true
  pub known_message :
      contains s.squash_message (codes "PR_BODY" ∷ codes "COMMIT_MESSAGES" ∷ codes "BLANK" ∷ [])
      ≡ true

object-eq-ok :
    (v : Value) (fields : List Text) (partial : Bool) {d : Dict}
    → object v fields partial ≡ ok d
    → as_dict v ≡ some d
unfolding object
object-eq-ok v fields partial h = ground arith

branch_name-eq-ok : (v : Value) {b : Text} → branch_name v ≡ ok b → bad_branch b ≡ false
unfolding branch_name
branch_name-eq-ok v h = ground arith

required_checks-eq-ok :
    (v : Value) {cs : List Text}
    → required_checks v ≡ ok cs
    → (is_empty cs ≡ false) × (has_duplicates cs ≡ false)
unfolding required_checks
required_checks-eq-ok v h = ground arith

settings_approvals :
    (v : Value) {s : Settings}
    → validate_settings v ≡ ok s
    → (s.required_approvals ≤ 6)
      × ((s.require_last_push_approval ≡ true) → 1 ≤ s.required_approvals)
unfolding validate_settings approvals
settings_approvals v h = ground arith

settings_branch :
    (v : Value) {s : Settings} → validate_settings v ≡ ok s → bad_branch s.target_branch ≡ false
unfolding validate_settings branch_name
settings_branch v h = ground arith

required_checks_texts :
    (ts : List Text)
    → (required_checks (arr (from_items (text_items ts))) ≡ ok ts)
      ⊎ ((e : PolicyError) × (required_checks (arr (from_items (text_items ts))) ≡ err e))
required_checks_texts ts =
    elim (Result-cases (required_checks (arr (from_items (text_items ts))))) [
      | inl (cs, h) ↦ inl (h ∙ ap ok (required_checks_lem ts h))
      | inr (e, h) ↦ inr (e, h)
    ]

overlaid_checks :
    (defaults overrides : Dict) (merged : List Text) {s : Settings}
    → validate_settings (overlay defaults overrides merged) ≡ ok s
    → s.checks ≡ merged
unfolding validate_settings get_item object overlay
overlaid_checks defaults overrides merged h =
    let below = update defaults (without (codes "required_checks") overrides) in
    let checks = arr (from_items (text_items merged)) in
    ground (
      arith,
      entries-from_entries (insert (codes "required_checks") checks below),
      lookup-insert_self (codes "required_checks") checks below,
      required_checks_texts merged,
    )

settings_distinct :
    (v : Value) {s : Settings}
    → validate_settings v ≡ ok s
    → (is_empty s.checks ≡ false) × (has_duplicates s.checks ≡ false)
unfolding validate_settings required_checks
settings_distinct v h = ground arith

named :
    (cs : List Text)
    → any (λ c. is_empty (strip c) || not (c == strip c) || any is_control c) cs ≡ false
    → any is_empty cs ≡ false
unfolding strip
named [] h = refl
named ([] ∷ cs) h = cc
named ((x ∷ c) ∷ cs) h = ground (arith, named cs)

settings_named :
    (v : Value) {s : Settings}
    → validate_settings v ≡ ok s
    → any (λ c. is_empty (strip c) || not (c == strip c) || any is_control c) s.checks ≡ false
unfolding validate_settings required_checks
settings_named v h = ground arith

settings_squash :
    (v : Value) {s : Settings}
    → validate_settings v ≡ ok s
    → (contains s.squash_title (codes "PR_TITLE" ∷ codes "COMMIT_OR_PR_TITLE" ∷ []) ≡ true)
      × (contains s.squash_message (codes "PR_BODY" ∷ codes "COMMIT_MESSAGES" ∷ codes "BLANK" ∷ [])
          ≡ true)
unfolding validate_settings one_of
settings_squash v h = ground arith

settings-IsValidSettings :
    (v : Value) {s : Settings} → validate_settings v ≡ ok s → IsValidSettings s
settings-IsValidSettings v {s} h =
    let (few, present) = settings_approvals v h in
    let (filled, distinct) = settings_distinct v h in
    let (title, message) = settings_squash v h in
    record {
      safe_branch = settings_branch v h;
      few_approvals = few;
      approval_present = present;
      has_checks = filled;
      distinct_checks = distinct;
      named_checks = named s.checks (settings_named v h);
      known_title = title;
      known_message = message;
    }

-- The checks that a repository adds: those of its overrides, or none if they do not name the field.
abbrev IsOwn : Dict → List Text → Type 0
IsOwn overrides own =
    ((lookup (codes "required_checks") overrides ≡ none) × (own ≡ []))
    ⊎ ((v : Value) × (lookup (codes "required_checks") overrides ≡ some v)
        × (required_checks v ≡ ok own))

repository_checks-IsOwn :
    (o : Option Value) {own : List Text}
    → repository_checks o ≡ ok own
    → ((o ≡ none) × (own ≡ [])) ⊎ ((v : Value) × (o ≡ some v) × (required_checks v ≡ ok own))
unfolding repository_checks
repository_checks-IsOwn none h = inl (refl, sym (ok-injective h))
repository_checks-IsOwn (some v) h = inr (v, refl, h)

-- The layers of a resolved policy: the foundation's defaults, the profiles, and the checks in the overrides of
-- the repository.
pub record IsLayered (foundation : Value) (repository : Value) (profile_values : List Value)
    (p : Policy) : Type 0 where
  pub fields : Dict
  pub defaults_value : Value
  pub defaults : Settings
  pub own : List Text
  pub is_dict : as_dict foundation ≡ some fields
  pub has_defaults : get_item fields (codes "defaults") ≡ ok defaults_value
  pub reads : validate_settings defaults_value ≡ ok defaults
  pub chain : profile_chain profile_values ≡ ok p.profiles
  pub repository_dict : Dict
  pub overrides_value : Value
  pub overrides : Dict
  pub is_repository : as_dict repository ≡ some repository_dict
  pub has_overrides : get_item repository_dict (codes "overrides") ≡ ok overrides_value
  pub is_overrides : as_dict overrides_value ≡ some overrides
  pub reads_own : IsOwn overrides own
  pub checks :
      (c : Text)
      → contains c p.settings.checks
        ≡ any (contains c) (defaults.checks ∷ (check_groups p.profiles ++ (own ∷ [])))

resolve_settings-checks :
    (v : Value) (defaults : Settings) (profiles : List Profile) (overrides : Dict) {s : Settings}
    → resolve_settings v defaults profiles overrides ≡ ok s
    → (own : List Text) × IsOwn overrides own
      × ((c : Text)
          → contains c s.checks
            ≡ any (contains c) (defaults.checks ∷ (check_groups profiles ++ (own ∷ []))))
      × IsValidSettings s
unfolding resolve_settings
resolve_settings-checks v defaults profiles overrides h =
    let (own, e, f) =
      >>=-eq-ok (repository_checks (lookup (codes "required_checks") overrides)) _ h in
    let (d, _, f') = >>=-eq-ok (require (as_dict v) not_an_object) _ f in
    let groups = defaults.checks ∷ (check_groups profiles ++ (own ∷ [])) in
    let merged = merge_required_checks groups in
    (
      own,
      repository_checks-IsOwn (lookup (codes "required_checks") overrides) e,
      λ c.
          ap (contains c) (overlaid_checks d overrides merged f')
          ∙ (merge_required_checks_lem groups).0 c,
      settings-IsValidSettings (overlay d overrides merged) f',
    )

-- The same from the foundation's fields.
abbrev Layered : Dict → Value → List Value → Policy → Type 0
Layered d repository profile_values p =
    (defaults_value : Value) × (defaults : Settings) × (own : List Text) × (get_item d
        (codes "defaults")
      ≡ ok defaults_value)
    × (validate_settings defaults_value ≡ ok defaults)
    × (profile_chain profile_values ≡ ok p.profiles)
    × ((r : Dict) × (ov : Value) × (overrides : Dict) × (as_dict repository ≡ some r)
        × (get_item r (codes "overrides") ≡ ok ov)
        × (as_dict ov ≡ some overrides)
        × IsOwn overrides own)
    × ((c : Text)
        → contains c p.settings.checks
          ≡ any (contains c) (defaults.checks ∷ (check_groups p.profiles ++ (own ∷ []))))
    × IsValidSettings p.settings

resolve_layers-Layered :
    (d : Dict) (m : Minimums) (repository : Value) (profile_values : List Value) {p : Policy}
    → resolve_layers d m repository profile_values ≡ ok p
    → Layered d repository profile_values p
unfolding resolve_layers
resolve_layers-Layered d m repository profile_values h =
    let (dv, e1, h1) = >>=-eq-ok (get_item d (codes "defaults")) _ h in
    let (defaults, e2, h2) = >>=-eq-ok (validate_settings dv) _ h1 in
    let (profiles, e3, h3) = >>=-eq-ok (profile_chain profile_values) _ h2 in
    let (r, e4, h4) = >>=-eq-ok (object repository repository_fields false) _ h3 in
    let (_, _, h5) = >>=-eq-ok (schema_version r) _ h4 in
    let (ov, e6, h6) = >>=-eq-ok (get_item r (codes "overrides")) _ h5 in
    let (overrides, e7, h7) = >>=-eq-ok (object ov setting_fields true) _ h6 in
    let (s, e8, h8) = >>=-eq-ok (resolve_settings dv defaults profiles overrides) _ h7 in
    let (own, is_own, checks, valid) =
      resolve_settings-checks dv defaults profiles overrides {s = s} e8 in
    let at_repository : (r : Dict) × (ov : Value) × (overrides : Dict) × (as_dict repository
          ≡ some r)
        × (get_item r (codes "overrides") ≡ ok ov)
        × (as_dict ov ≡ some overrides)
        × IsOwn overrides own =
      (
        r,
        ov,
        overrides,
        object-eq-ok repository repository_fields false e4,
        e6,
        object-eq-ok ov setting_fields true e7,
        is_own,
      ) in
    subst (Layered d repository profile_values) (ok-injective h8)
      (dv, defaults, own, e1, e2, e3, at_repository, checks, valid)

-- A resolved policy has valid settings, and its required checks are exactly those of the foundation's
-- defaults, of the profiles in their chain and of the overrides of the repository, which add none if they do
-- not name the field: no layer takes one away.
pub resolve_policy-IsLayered :
    (foundation repository : Value) (known : List Text) (profile_values : List Value) {p : Policy}
    → resolve_policy foundation repository known profile_values ≡ ok p
    → IsValidSettings p.settings × IsLayered foundation repository profile_values p
unfolding resolve_policy
resolve_policy-IsLayered foundation repository known profile_values h =
    let (d, e1, h1) = >>=-eq-ok (object foundation foundation_fields false) _ h in
    let (_, _, h2) = >>=-eq-ok (schema_version d) _ h1 in
    let (m, _, h3) = >>=-eq-ok (get_item d (codes "managed_by")) _ h2 in
    let (_, _, h4) = >>=-eq-ok (raise_if (not (is_manager (as_str m))) wrong_manager) _ h3 in
    let (mv, _, h5) = >>=-eq-ok (get_item d (codes "minimums")) _ h4 in
    let (minimums, _, h6) = >>=-eq-ok (read_minimums known mv) _ h5 in
    let (dv, defaults, own, has, reads, chain, (r, ov, overrides, e, f, g, is_own), checks, valid) =
      resolve_layers-Layered d minimums repository profile_values h6 in
    (
      valid,
      record {
        fields = d;
        defaults_value = dv;
        defaults = defaults;
        own = own;
        is_dict = object-eq-ok foundation foundation_fields false e1;
        has_defaults = has;
        reads = reads;
        chain = chain;
        repository_dict = r;
        overrides_value = ov;
        overrides = overrides;
        is_repository = e;
        has_overrides = f;
        is_overrides = g;
        reads_own = is_own;
        checks = checks;
      },
    )
