-- ===== src/Governance/Discovery/RoundTrip/Methods.antt =====
-- `_pull_update_state` on the merge methods that `_ruleset_payload` writes.
use chat_chart.Base.{
  ◌≡◌, refl, true, [], List, Option, Text, Bool, some, is_empty, contains, arith, ok, none, sorted,
  has_duplicates, all, text_le, not, Value, ◌||◌, null, sort_by-all, sorted-duplicates,
  sort_by-is_empty,
}
use chat_chart.Governance.Ruleset.{PullState, read_methods, merge_methods}
use chat_chart.Governance.Compare.{text_values}
use chat_chart.Governance.Discovery.UpdateState.{pull_methods}
use chat_chart.Governance.Discovery.RoundTrip.Checks.{text_list-text_values}

-- `None`, or different merge methods.
abbrev pub methods_valid : Option (List Text) → Bool
methods_valid none = true
methods_valid (some ms) =
    not (is_empty ms || not (all (λ m. contains m merge_methods) ms) || has_duplicates ms)

abbrev pub sorted_methods : Option (List Text) → Option (List Text)
sorted_methods none = none
sorted_methods (some ms) = some (sorted ms)

unfoldable pub methods_value : Option (List Text) → Value
methods_value none = null
methods_value (some ms) = text_values ms

pub read_methods-texts :
    (ms : List Text) → methods_valid (some ms) ≡ true → read_methods (text_values ms) ≡ ok (some ms)
unfolding read_methods
read_methods-texts ms h = rw (text_list-text_values ms) (ground arith)

pub sorted-is_empty : (ts : List Text) → is_empty (sorted ts) ≡ is_empty ts
unfolding sorted
sorted-is_empty ts = sort_by-is_empty text_le ts

pub sorted-all : (p : Text → Bool) (ts : List Text) → all p (sorted ts) ≡ all p ts
unfolding sorted
sorted-all p ts = sort_by-all text_le p ts

pub sorted-methods_valid :
    (ms : List Text) → methods_valid (some ms) ≡ true → methods_valid (some (sorted ms)) ≡ true
sorted-methods_valid ms h =
    ground (
      arith,
      sorted-is_empty ms,
      sorted-all (λ m. contains m merge_methods) ms,
      sorted-duplicates ms,
    )

pub pull_methods-none : pull_methods none ≡ (null, [])
unfolding pull_methods
pull_methods-none = refl

pub pull_methods-payload :
    (ms : List Text)
    → methods_valid (some ms) ≡ true
    → pull_methods (some (text_values ms)) ≡ (text_values (sorted ms), [])
unfolding pull_methods sorted
pull_methods-payload ms h = rw (read_methods-texts ms h, pull_methods) refl

abbrev pub methods_of : Option PullState → Option (List Text)
methods_of none = none
methods_of (some r) = r.methods
