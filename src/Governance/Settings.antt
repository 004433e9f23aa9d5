-- ===== src/Governance/Settings.antt =====
-- scripts/github_governance.py: `_object`, `_schema_version`, `_validate_rule_refs`,
-- `_validate_branch_name`, `_validate_required_checks` and `_validate_settings`.
-- A validator that returns nothing in the source returns what it has read here, so that the
-- caller's later `value[...]` is that result.
use Prim.Native.Nat.{ℕ}
use chat_chart.Governance.Errors.{
  PolicyError, key_error, bad_rule_refs, bad_backend, bad_required_checks, unsafe_branch,
  bad_approvals, not_an_object, bad_schema_version, not_a_boolean, approval_needed,
  unknown_rule_refs, wrong_fields, bad_provider, bad_check_name, bad_squash_title,
  bad_squash_message,
}
use chat_chart.Base.{
  ℕ, ◌+◌, Bool, false, not, ◌&&◌, ◌||◌, Option, none, some, List, [], ◌∷◌, Result, ok, ◌>>=◌, ◌>>◌,
  if◌then◌else◌, ◌==◌, Value, Dict, lookup, sorted_minus, strip, any, Text, starts_with, ltb,
  has_duplicates, str, as_str, require, nat_eq, keep_if, ℤ, ends_with, codes, leb, as_list, int,
  as_dict, length, raise_if, has_substring, pos, contains, as_bool, split, drop, as_int, keys,
  is_empty, all, char_in,
}

abbrev pub M {ℓ} : Type ℓ → Type ℓ
M A = Result PolicyError A

-- `_object`, where `partial` allows missing fields.
unfoldable pub object : Value → List Text → Bool → M Dict
object value fields partial = do
  d ← require (as_dict value) not_an_object
  let unknown = sorted_minus (keys d) fields
  let missing = if partial then [] else sorted_minus fields (keys d)
  raise_if (not (is_empty unknown) || not (is_empty missing)) (wrong_fields unknown missing)
  ok d

-- `value[key]`
unfoldable pub get_item : Dict → Text → M Value
unfolding lookup
get_item d k = require (lookup k d) (key_error k)

-- `_schema_version`
unfoldable pub schema_version : Dict → M (Unit {0})
unfolding get_item
schema_version policy = get_item policy (codes "schema_version") >>= λ v.
    raise_if (not (is_one (as_int v))) bad_schema_version
  where
    is_one : Option ℤ → Bool
    is_one (some (pos n)) = nat_eq n 1
    is_one _ = false

-- `[x for x in xs]` where every item is a `str`, or `none`.
unfoldable pub all_str : List Value → Option (List Text)
all_str [] = some []
all_str (v ∷ vs) = both (as_str v) (all_str vs)
  where
    both : Option Text → Option (List Text) → Option (List Text)
    both (some t) (some ts) = some (t ∷ ts)
    both _ _ = none

-- A list of texts, as the tests `type(x) is not list` and `type(item) is not str` let it pass.
unfoldable pub text_list : Value → Option (List Text)
unfolding all_str
text_list v = elim (as_list v) [ none ↦ none | some vs ↦ all_str vs ]

-- The zeros of Unicode's decimal digits, which `\d` matches.
abbrev decimal_zeros : List ℕ
decimal_zeros =
    48 ∷ 1632 ∷ 1776 ∷ 1984 ∷ 2406 ∷ 2534 ∷ 2662 ∷ 2790 ∷ 2918 ∷ 3046 ∷ 3174 ∷ 3302 ∷ 3430 ∷ 3558
    ∷ 3664 ∷ 3792 ∷ 3872 ∷ 4160 ∷ 4240 ∷ 6112 ∷ 6160 ∷ 6470 ∷ 6608 ∷ 6784 ∷ 6800 ∷ 6992 ∷ 7088
    ∷ 7232 ∷ 7248 ∷ 42528 ∷ 43216 ∷ 43264 ∷ 43472 ∷ 43504 ∷ 43600 ∷ 44016 ∷ 65296 ∷ 66720 ∷ 68912
    ∷ 69734 ∷ 69872 ∷ 69942 ∷ 70096 ∷ 70384 ∷ 70736 ∷ 70864 ∷ 71248 ∷ 71360 ∷ 71472 ∷ 71904 ∷ 72016
    ∷ 72784 ∷ 73040 ∷ 73120 ∷ 92768 ∷ 92864 ∷ 93008 ∷ 120782 ∷ 120792 ∷ 120802 ∷ 120812 ∷ 120822
    ∷ 123200 ∷ 123632 ∷ 125264 ∷ 130032 ∷ []

is_digit : ℕ → Bool
is_digit c = any (λ z. leb z c && ltb c (z + 10)) decimal_zeros

-- `RULE_ID.fullmatch`
unfoldable pub rule_id : Text → Bool
unfolding is_digit starts_with
rule_id s =
    any
      (λ area.
        starts_with s area
        && nat_eq (length (drop (length area) s)) 3
        && all is_digit (drop (length area) s))
      (codes "GR-" ∷ codes "SEC-" ∷ codes "WF-" ∷ [])

-- `_validate_rule_refs`
unfoldable pub rule_refs : Value → List Text → M (List Text)
unfolding text_list has_duplicates rule_id sorted_minus keep_if
rule_refs value known = do
  refs ← require (text_list value) bad_rule_refs
  raise_if (is_empty refs) bad_rule_refs
  raise_if (has_duplicates refs) bad_rule_refs
  let invalid = keep_if (λ ref. not (rule_id ref)) refs
  let unknown = if is_empty invalid then sorted_minus refs known else []
  raise_if (not (is_empty invalid) || not (is_empty unknown))
      (unknown_rule_refs (if is_empty invalid then unknown else invalid))
  ok refs

abbrev pub is_control : ℕ → Bool
is_control c = ltb c 32 || nat_eq c 127

-- The tests of `_validate_branch_name` on a text.
unfoldable pub bad_branch : Text → Bool
unfolding strip starts_with ends_with has_substring split
bad_branch s =
    is_empty s
    || not (s == strip s)
    || ltb 255 (length s)
    || contains s (codes "@" ∷ codes "." ∷ codes ".." ∷ [])
    || any (λ p. starts_with s p) (codes "-" ∷ codes "/" ∷ codes "." ∷ [])
    || any (λ p. ends_with s p) (codes "/" ∷ codes "." ∷ codes ".lock" ∷ [])
    || any (λ p. has_substring s p) (codes "//" ∷ codes ".." ∷ codes "@{" ∷ [])
    || any (λ part. starts_with part (codes ".") || ends_with part (codes ".lock")) (split b'/' s)
    || any (λ c. is_control c || char_in c (codes " ~^:?*[\\")) s

-- `_validate_branch_name`
unfoldable pub branch_name : Value → M Text
branch_name value = do
  s ← require (as_str value) unsafe_branch
  raise_if (bad_branch s) unsafe_branch
  ok s

-- `_validate_required_checks`
unfoldable pub required_checks : Value → M (List Text)
required_checks value = do
  checks ← require (text_list value) bad_required_checks
  raise_if (is_empty checks) bad_required_checks
  raise_if (has_duplicates checks) bad_required_checks
  raise_if
      (any (λ check. is_empty (strip check) || not (check == strip check) || any is_control check)
        checks)
      bad_check_name
  ok checks

pub data Backend : Type 0 where
  rulesets legacy_branch_protection : Backend

unfoldable pub backend : Text → Option Backend
backend s =
    if s == codes "ruleset"
    then some rulesets
    else if s == codes "legacy_branch_protection"
    then some legacy_branch_protection
    else none

pub data Provider : Type 0 where
  renovate dependabot : Provider

unfoldable pub provider : Text → Option Provider
provider s =
    if s == codes "renovate"
    then some renovate
    else if s == codes "dependabot"
    then some dependabot
    else none

pub record Settings : Type 0 where
  pub target_branch : Text
  pub enforcement_backend : Backend
  pub required_approvals : ℕ
  pub require_last_push_approval : Bool
  pub checks : List Text
  pub dependency_update_provider : Provider
  pub delete_branch_on_merge : Bool
  pub discussions_enabled : Bool
  pub squash_title : Text
  pub squash_message : Text

abbrev pub setting_fields : List Text
setting_fields =
    codes "target_branch"
    ∷ codes "enforcement_backend"
    ∷ codes "required_approvals"
    ∷ codes "require_last_push_approval"
    ∷ codes "required_checks"
    ∷ codes "dependency_update_provider"
    ∷ codes "delete_branch_on_merge"
    ∷ codes "discussions_enabled"
    ∷ codes "squash_merge_commit_title"
    ∷ codes "squash_merge_commit_message"
    ∷ []

-- `type(n) is int and 0 <= n <= 6`
unfoldable pub approvals : Value → Option ℕ
approvals (int (pos n)) = if leb n 6 then some n else none
approvals _ = none

-- A text that is one of the choices.
unfoldable pub one_of : List Text → Value → Option Text
one_of choices (str s) = if contains s choices then some s else none
one_of choices _ = none

-- The value of a text that the reader knows.
unfoldable pub read_choice : {A : Type 0} → (Text → Option A) → Value → Option A
read_choice read (str s) = read s
read_choice read _ = none

-- `_validate_settings`
unfoldable pub validate_settings : Value → M Settings
validate_settings value = do
  d ← object value setting_fields false
  target ← branch_name (← get_item d (codes "target_branch"))
  b ← require (read_choice backend (← get_item d (codes "enforcement_backend"))) bad_backend
  n ← require (approvals (← get_item d (codes "required_approvals"))) bad_approvals
  last ← require (as_bool (← get_item d (codes "require_last_push_approval"))) not_a_boolean
  delete ← require (as_bool (← get_item d (codes "delete_branch_on_merge"))) not_a_boolean
  discussions ← require (as_bool (← get_item d (codes "discussions_enabled"))) not_a_boolean
  raise_if (nat_eq n 0 && last) approval_needed
  cs ← required_checks (← get_item d (codes "required_checks"))
  p ←
      require (read_choice provider (← get_item d (codes "dependency_update_provider")))
        bad_provider
  title ←
      require
        (one_of (codes "PR_TITLE" ∷ codes "COMMIT_OR_PR_TITLE" ∷ [])
          (← get_item d (codes "squash_merge_commit_title")))
        bad_squash_title
  message ←
      require
        (one_of (codes "PR_BODY" ∷ codes "COMMIT_MESSAGES" ∷ codes "BLANK" ∷ [])
          (← get_item d (codes "squash_merge_commit_message")))
        bad_squash_message
  ok (record {
    target_branch = target;
    enforcement_backend = b;
    required_approvals = n;
    require_last_push_approval = last;
    checks = cs;
    dependency_update_provider = p;
    delete_branch_on_merge = delete;
    discussions_enabled = discussions;
    squash_title = title;
    squash_message = message;
  })
