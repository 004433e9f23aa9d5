-- ===== src/Inheritance/Ownership.antt =====
-- scripts/template_inheritance.py: `_object`, `_repository`, `_ownership_root`, `_branch`,
-- `_ownership_roots`, `_overlaps`, `_reject_overlaps`, `_covers` and `_path_owner`.
-- A validator that returns nothing in the source returns what it has read here, so that the
-- caller's later `value[...]` is that result.
pub mod Overlap
pub mod Safety
use chat_chart.Base.{
  ℕ, Bool, true, false, not, ◌&&◌, ◌||◌, Option, none, some, List, [], ◌∷◌, ltb, leb, nat_eq,
  if◌then◌else◌, any, all, length, keep_if, is_empty, drop_last, Result, ok, err, ◌>>=◌, ◌>>◌,
  raise_if, rethrow, traverse, Text, codes, ◌==◌, contains, starts_with, ends_with, has_substring,
  char_in, split, strip, sorted, Value, Dict, as_str, as_list, as_dict, keys, lookup, ◌≡◌, arith,
  require, sorted_minus, has_duplicates, repository_target,
}
use chat_chart.Inheritance.Errors.{
  InheritanceError, not_an_object, wrong_fields, not_a_repository, unsafe_root, unsafe_branch,
  not_unique_roots, roots_overlap, key_error,
}

abbrev pub M {ℓ} : Type ℓ → Type ℓ
M A = Result InheritanceError A

-- `_object`
unfoldable pub object : Value → List Text → M Dict
unfolding sorted_minus
object value fields = do
  d ← require (as_dict value) not_an_object
  let unknown = sorted_minus (keys d) fields
  let missing = sorted_minus fields (keys d)
  raise_if (not (is_empty unknown) || not (is_empty missing)) (wrong_fields unknown missing)
  ok d

-- `value[key]`
unfoldable pub get_item : Dict → Text → M Value
unfolding lookup
get_item d k = require (lookup k d) (key_error k)

-- `_repository`
unfoldable pub repository : Value → M Text
unfolding repository_target
repository value = do
  s ← require (as_str value) not_a_repository
  raise_if (not (repository_target s)) not_a_repository
  ok s

-- The parts that a path may not have: "", ".", ".." and ".git".
abbrev pub bad_part : Text → Bool
bad_part part = contains part (codes "" ∷ codes "." ∷ codes ".." ∷ codes ".git" ∷ [])

-- The characters that a path may not have: patterns, backslashes and ASCII controls.
abbrev pub bad_char : ℕ → Bool
bad_char c = char_in c (codes "*?[]\\") || ltb c 32 || nat_eq c 127

abbrev pub is_directory : Text → Bool
is_directory s = ends_with s (codes "/")

-- The value without the slash of a directory.
abbrev pub body : Text → Text
body s = if is_directory s then drop_last 1 s else s

-- `_ownership_root`
unfoldable pub ownership_root : Value → Bool → M Text
unfolding ends_with split strip starts_with
ownership_root value file_only = do
  s ← require (as_str value) unsafe_root
  raise_if (is_empty s || not (s == strip s) || ltb 1024 (length s)) unsafe_root
  raise_if
      (is_empty (body s)
        || starts_with (body s) (codes "/")
        || (file_only && is_directory s)
        || any bad_part (split b'/' (body s))
        || any bad_char s)
      unsafe_root
  ok s

-- `_branch`
unfoldable pub branch : Value → M Text
unfolding ownership_root has_substring
branch value = do
  s ← rethrow (λ _. unsafe_branch) (ownership_root value true)
  raise_if
      (ltb 255 (length s)
        || s == codes "@"
        || any (λ p. starts_with s p) (codes "-" ∷ codes "." ∷ [])
        || any (λ p. ends_with s p) (codes "." ∷ codes ".lock" ∷ [])
        || has_substring s (codes "..")
        || has_substring s (codes "@{")
        || any (λ part. starts_with part (codes ".") || ends_with part (codes ".lock"))
            (split b'/' s)
        || any (λ c. char_in c (codes " ~^:")) s)
      unsafe_branch
  ok s

abbrev max_ownership_roots : ℕ
max_ownership_roots = 1000

-- `_ownership_roots`
unfoldable pub ownership_roots : Value → M (List Text)
unfolding ownership_root has_duplicates
ownership_roots value = do
  vs ← require (as_list value) not_unique_roots
  raise_if (is_empty vs || ltb max_ownership_roots (length vs)) not_unique_roots
  roots ← traverse (λ v. ownership_root v false) vs
  raise_if (has_duplicates roots) not_unique_roots
  ok roots

-- `_covers`, also the test of `_path_owner` on a root and a path.
unfoldable pub covers : Text → Text → Bool
unfolding ends_with starts_with
covers outer inner = outer == inner || (is_directory outer && starts_with inner outer)

-- `_overlaps`
unfoldable pub overlaps : Text → Text → Bool
unfolding ends_with starts_with
overlaps left right =
    left == right
    || (is_directory left && starts_with right left)
    || (is_directory right && starts_with left right)

-- The inner loop of `_reject_overlaps`.
unfoldable pub reject_overlap : Text → List Text → M (Unit {0})
unfolding overlaps
reject_overlap left [] = ok tt
reject_overlap left (right ∷ rest) =
    raise_if (overlaps left right) (roots_overlap left right) >> reject_overlap left rest

-- `_reject_overlaps`
unfoldable pub reject_overlaps : List Text → M (Unit {0})
unfolding reject_overlap
reject_overlaps [] = ok tt
reject_overlaps (left ∷ rest) = reject_overlap left rest >> reject_overlaps rest

pub data Owner : Type 0 where
  inherited protected unowned : Owner

-- `_path_owner`
unfoldable pub path_owner : Text → List Text → List Text → Owner
unfolding covers
path_owner path inherited_roots protected_roots =
    if any (λ root. covers root path) inherited_roots
    then inherited
    else if any (λ root. covers root path) protected_roots
    then protected
    else unowned
