-- ===== src/Inheritance/Contract/Ignore.antt =====
-- `_validate_template_sync_ignore` against what the synchronisation may overwrite.
use chat_chart.Base.{
  Text, List, all, Bool, ◌≡◌, any, true, ◌&&◌, arith, ◌∷◌, not, false, starts_with_trans, [], refl,
  sorted, ok, ◌↔◌, sorted_kept-is_empty, text_le, not-any, Bool-cases, sort_by-any, inl, inr,
}
use chat_chart.Inheritance.Files.{IgnoreEntries}
use chat_chart.Inheritance.Ownership.{covers, overlaps}
use chat_chart.Inheritance.Contract.{union, required_template_sync_ignores, check_ignore}
use chat_chart.Inheritance.Ownership.Overlap.{covers→overlaps, covers_refl, shared_root}

covers_trans : (a b p : Text) → covers a b ≡ true → covers b p ≡ true → covers a p ≡ true
unfolding covers
covers_trans a b p h k = ground (arith, starts_with_trans p b a)

-- A path under one of the roots.
abbrev pub under : Text → List Text → Bool
under p roots = any (λ root. covers root p) roots

-- The roots that the ignore file has to keep local.
abbrev pub kept_local : List Text → List Text
kept_local protected = union protected required_template_sync_ignores

covered_root :
    (r p : Text) (entries : List Text)
    → under r entries ≡ true
    → covers r p ≡ true
    → under p entries ≡ true
covered_root r p [] h c = h
covered_root r p (e ∷ es) h c = ground (arith, covers_trans e r p, covered_root r p es)

covered_all :
    (p : Text) (roots entries : List Text)
    → all (λ r. under r entries) roots ≡ true
    → under p roots ≡ true
    → under p entries ≡ true
covered_all p [] entries h u = cc
covered_all p (r ∷ rs) entries h u =
    ground (arith, covered_root r p entries, covered_all p rs entries)

uncovered_exception :
    (x p : Text) (roots : List Text)
    → any (overlaps x) roots ≡ false
    → under p roots ≡ true
    → covers x p ≡ false
uncovered_exception x p [] h u = cc
uncovered_exception x p (r ∷ rs) h u =
    ground (arith, covers→overlaps x r p, uncovered_exception x p rs)

no_exception :
    (p : Text) (roots exceptions : List Text)
    → any (λ x. any (overlaps x) roots) exceptions ≡ false
    → under p roots ≡ true
    → under p exceptions ≡ false
no_exception p roots [] h u = refl
no_exception p roots (x ∷ xs) h u =
    ground (arith, uncovered_exception x p roots, no_exception p roots xs)

-- The two tests that `check_ignore` makes.
abbrev passes : IgnoreEntries → List Text → Bool
passes entries roots =
    all (λ r. under r entries.positive) roots
    && not (any (λ x. any (overlaps x) roots) entries.exceptions)

check_ignore-passes :
    (entries : IgnoreEntries) (protected : List Text)
    → (check_ignore entries protected ≡ ok (sorted (kept_local protected)))
      ↔ (passes entries (sorted (kept_local protected)) ≡ true)
unfolding check_ignore sorted
check_ignore-passes entries protected =
    let roots = sorted (kept_local protected) in
    ground (
      arith,
      sorted_kept-is_empty text_le (λ path. not (any (λ e. covers e path) entries.positive)) roots,
      sorted_kept-is_empty text_le (λ x. any (overlaps x) roots) entries.exceptions,
      not-any (λ path. any (λ e. covers e path) entries.positive) roots,
    )

all_positive :
    (roots entries : List Text)
    → ((p : Text) → under p roots ≡ true → under p entries ≡ true)
    → all (λ r. under r entries) roots ≡ true
all_positive [] entries h = refl
all_positive (r ∷ rs) entries h =
    let here = h r (ground (arith, covers_refl r)) in
    let rest = all_positive rs entries (λ p u. h p (ground arith)) in ground arith

none_overlaps :
    (roots exceptions : List Text)
    → ((p : Text) → under p roots ≡ true → under p exceptions ≡ false)
    → any (λ x. any (overlaps x) roots) exceptions ≡ false
none_overlaps roots [] h = refl
none_overlaps roots (x ∷ xs) h = elim (Bool-cases (any (overlaps x) roots)) [
  | inl o ↦ let (p, c, u) = shared_root x roots o in let absent = h p u in ground arith
  | inr n ↦
      let rest = none_overlaps roots xs (λ p u. let absent = h p u in ground arith) in ground arith
]

-- The synchronisation keeps every path under a root: some entry of the ignore file keeps it local,
-- and no exception takes it back.
abbrev pub Keeps : IgnoreEntries → List Text → Type 0
Keeps entries roots =
    (p : Text)
    → under p roots ≡ true
    → (under p entries.positive ≡ true) × (under p entries.exceptions ≡ false)

passes_iff :
    (entries : IgnoreEntries) (roots : List Text)
    → (passes entries roots ≡ true) ↔ Keeps entries roots
passes_iff entries roots = (
  λ h p u. (
    covered_all p roots entries.positive (ground arith) u,
    no_exception p roots entries.exceptions (ground arith) u,
  ),
  λ h.
      let positive = all_positive roots entries.positive (λ p u. (h p u).0) in
      let exceptions = none_overlaps roots entries.exceptions (λ p u. (h p u).1) in ground arith,
)

pub any-sorted : (q : Text → Bool) (xs : List Text) → any q (sorted xs) ≡ any q xs
unfolding sorted
any-sorted q xs = sort_by-any text_le q xs

pub under-sorted : (p : Text) (roots : List Text) → under p (sorted roots) ≡ under p roots
under-sorted p roots = any-sorted (λ root. covers root p) roots

-- `_validate_template_sync_ignore` accepts the entries of the ignore file exactly if they keep every
-- path under a protected root and under `.github/workflows/` out of the synchronisation.
pub check_ignore_iff :
    (entries : IgnoreEntries) (protected : List Text)
    → (check_ignore entries protected ≡ ok (sorted (kept_local protected)))
      ↔ Keeps entries (kept_local protected)
check_ignore_iff entries protected =
    let (from, to) = check_ignore-passes entries protected in
    let (out, back) = passes_iff entries (sorted (kept_local protected)) in
    (
      λ h p u. out (from h) p (rw under-sorted u),
      λ k. to (back (λ p u. k p (rw under-sorted at u))),
    )

-- An accepted ignore file is reported with the roots that it keeps.
pub check_ignore-eq-ok :
    (entries : IgnoreEntries) (protected : List Text) {required : List Text}
    → check_ignore entries protected ≡ ok required
    → required ≡ sorted (kept_local protected)
unfolding check_ignore
check_ignore-eq-ok entries protected h = ground arith
