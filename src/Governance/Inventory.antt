-- ===== src/Governance/Inventory.antt =====
-- scripts/github_governance.py: the state of a repository that `discover_github` returns, `_has_unknown`,
-- and Python's `==` on the values in it.
-- A field that the script fills with `_known(value, type)` is a value of that type or the text
-- "unknown". A field that always is a text is a `Text`.
use chat_chart.Base.{
  null, bool, int, real, str, arr, obj, nil, cons, end, field, pos, negsuc, none, some, true, false,
  [], ◌∷◌, Bool, ◌&&◌, ◌||◌, Option, List, ◌==◌, Text, Value, ℤ, codes, nat_eq, items, Dict, Fields,
  length, entries, Items, lookup,
}

-- `UNKNOWN`
abbrev pub unknown_text : Text
unknown_text = codes "unknown"

abbrev pub unknown_value : Value
unknown_value = str unknown_text

-- `False == 0` and `True == 1`.
abbrev pub int_of : Bool → ℤ
int_of true = pos 1
int_of false = pos 0

abbrev pub int_eq : ℤ → ℤ → Bool
int_eq (pos m) (pos n) = nat_eq m n
int_eq (negsuc m) (negsuc n) = nat_eq m n
int_eq _ _ = false

abbrev pub bool_eq : Bool → Bool → Bool
bool_eq true true = true
bool_eq false false = true
bool_eq _ _ = false

-- `a == b`. No value that is compared holds a float: two of them are equal here if their texts are.
unfoldable mutual
  pub value_eq : Value → Value → Bool
  value_eq null null = true
  value_eq null _ = false
  value_eq (bool a) (bool b) = bool_eq a b
  value_eq (bool a) (int n) = int_eq (int_of a) n
  value_eq (bool a) _ = false
  value_eq (int m) (int n) = int_eq m n
  value_eq (int m) (bool b) = int_eq m (int_of b)
  value_eq (int m) _ = false
  value_eq (real s) (real t) = s == t
  value_eq (real s) _ = false
  value_eq (str s) (str t) = s == t
  value_eq (str s) _ = false
  value_eq (arr xs) (arr ys) = items_eq xs (items ys)
  value_eq (arr xs) _ = false
  value_eq (obj fs) (obj gs) =
      nat_eq (length (entries fs)) (length (entries gs)) && fields_in fs (entries gs)
  value_eq (obj fs) _ = false

  items_eq : Items → List Value → Bool
  items_eq nil [] = true
  items_eq nil (y ∷ ys) = false
  items_eq (cons x xs) [] = false
  items_eq (cons x xs) (y ∷ ys) = value_eq x y && items_eq xs ys

  -- Every field is in the dict, with an equal value.
  fields_in : Fields → Dict → Bool
  fields_in end d = true
  fields_in (field k v fs) d =
      elim (lookup k d) [ none ↦ false | some w ↦ value_eq v w ] && fields_in fs d

-- `_has_unknown`
unfoldable mutual
  pub has_unknown : Value → Bool
  has_unknown null = false
  has_unknown (bool b) = false
  has_unknown (int n) = false
  has_unknown (real t) = false
  has_unknown (str t) = t == unknown_text
  has_unknown (arr vs) = false
  has_unknown (obj fs) = has_unknown_field fs

  has_unknown_field : Fields → Bool
  has_unknown_field end = false
  has_unknown_field (field k v fs) = has_unknown v || has_unknown_field fs

-- An effective rule, as `_normalize_rules` returns it.
pub record Rule : Type 0 where
  pub rule_type : Text
  pub ruleset_id : Value
  pub source : Text
  pub source_type : Text
  pub parameters : Dict

-- What `_managed_update_state` returns.
pub record UpdateState : Type 0 where
  pub conditions : Value
  pub pull_request : Value
  pub required_status_checks : Value
  pub rule_types : List Text
  pub unsupported : List Text

-- An item of `_discover_rulesets`.
pub record Ruleset : Type 0 where
  pub id : ℤ
  pub name : Text
  pub source : Text
  pub source_type : Text
  pub has_bypass_actors : Value
  pub update_state : Option UpdateState

pub record Reviews : Type 0 where
  pub last_push : Value
  pub count : Value

pub record LegacyChecks : Type 0 where
  pub contexts : Value
  pub strict : Value

pub record LegacyState : Type 0 where
  pub allow_force_pushes : Value
  pub enforce_admins : Value
  pub reviews : Option Reviews
  pub checks : Option LegacyChecks

-- `_legacy_inventory`
pub data Legacy : Type 0 where
  absent unavailable : Legacy
  configured : LegacyState → Legacy

pub record Repository : Type 0 where
  pub full_name : Text
  pub allow_merge_commit : Value
  pub allow_rebase_merge : Value
  pub allow_squash_merge : Value
  pub default_branch : Value
  pub delete_branch_on_merge : Value
  pub has_discussions : Value
  pub squash_merge_commit_message : Value
  pub squash_merge_commit_title : Value

pub record Security : Type 0 where
  pub dependabot_security_updates : Text
  pub push_protection : Text
  pub secret_scanning : Text
  pub private_vulnerability_reporting : Text
  pub vulnerability_alerts : Text

pub record Inventory : Type 0 where
  pub branch : Text
  pub protected : Bool
  pub effective_rules : List Rule
  pub legacy : Legacy
  pub observed_checks : List Text
  pub repository : Repository
  pub rulesets : List Ruleset
  pub security : Security
