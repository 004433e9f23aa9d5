-- ===== src/Inheritance/Contract/Exclusive.antt =====
-- `validate_inheritance`: no path has two owners, and the paths that the check needs are protected.
use chat_chart.Base.{
  List, Text, ◌≡◌, length, ok, any, ◌≤◌, is_empty, true, all, false, ◌∷◌, arith, [], refl,
  >>=-eq-ok, sorted, sort_by-kept, sorted_kept-is_empty, raise_if, text_le, not, not-any, sym, ◌∙◌,
  raise_if-eq-ok,
}
use chat_chart.Inheritance.Contract.{
  check_ownership, reject_shared, reject_against, Manifest, unprotected, union,
  required_protected_paths,
}
use chat_chart.Inheritance.Ownership.Overlap.{owners, no-any-covers, reject_overlaps_iff}
use chat_chart.Inheritance.Contract.Ignore.{under, under-sorted, any-sorted}
use chat_chart.Inheritance.Ownership.{overlaps, reject_overlaps, covers}
use chat_chart.Inheritance.Errors.{InheritanceError}

reject_against-eq-ok :
    (r : Text) (ys : List Text) → reject_against r ys ≡ ok tt → any (overlaps r) ys ≡ false
unfolding reject_against
reject_against-eq-ok r [] h = refl
reject_against-eq-ok r (y ∷ ys) h = ground (arith, reject_against-eq-ok r ys)

reject_shared-eq-ok :
    (xs ys : List Text) (p : Text)
    → reject_shared xs ys ≡ ok tt
    → under p xs ≡ true
    → under p ys ≡ false
unfolding reject_shared
reject_shared-eq-ok [] ys p h u = cc
reject_shared-eq-ok (x ∷ xs) ys p h u =
    ground (arith, reject_against-eq-ok x ys, no-any-covers x p ys, reject_shared-eq-ok xs ys p)

-- What `check_ownership` has found of the roots.
pub record IsExclusive (inherited protected : List Text) (lock_file : Text) : Type 0 where
  pub single_inherited : (p : Text) → length (owners p inherited) ≤ 1
  pub single_protected : (p : Text) → length (owners p protected) ≤ 1
  pub apart : (p : Text) → under p inherited ≡ true → under p protected ≡ false
  pub guarded :
      all
        (λ path. any (λ root. overlaps root path) protected)
        (union required_protected_paths (lock_file ∷ []))
      ≡ true

unprotected-is_empty :
    (protected : List Text) (lock_file : Text)
    → is_empty (unprotected protected lock_file)
      ≡ all
          (λ path. any (λ root. overlaps root path) protected)
          (union required_protected_paths (lock_file ∷ []))
unfolding unprotected sorted
unprotected-is_empty protected lock_file =
    let paths = union required_protected_paths (lock_file ∷ []) in
    ground (
      arith,
      sorted_kept-is_empty text_le (λ path. not (any (λ root. overlaps root path) protected)) paths,
      not-any (λ path. any (λ root. overlaps root path) protected) paths,
    )

guarded_of :
    (protected : List Text) (lock_file : Text) (e : InheritanceError)
    → raise_if (not (is_empty (unprotected protected lock_file))) e ≡ ok tt
    → all
        (λ path. any (λ root. overlaps root path) protected)
        (union required_protected_paths (lock_file ∷ []))
      ≡ true
guarded_of protected lock_file e h =
    sym (unprotected-is_empty protected lock_file) ∙ empty_of (raise_if-eq-ok _ _ h)
  where
    empty_of :
        not (is_empty (unprotected protected lock_file)) ≡ false
        → is_empty (unprotected protected lock_file) ≡ true
    empty_of g = ground arith

pub check_ownership-IsExclusive :
    (m : Manifest) → check_ownership m ≡ ok tt → IsExclusive m.inherited m.protected m.lock_file
unfolding check_ownership
check_ownership-IsExclusive m h =
    let (t, e, f) = >>=-eq-ok (reject_overlaps m.inherited) _ h in
    let (t', e', f') = >>=-eq-ok (reject_overlaps m.protected) _ f in
    let (t'', e'', f'') = >>=-eq-ok (reject_shared m.inherited m.protected) _ f' in
    record {
      single_inherited = (reject_overlaps_iff m.inherited).0 e;
      single_protected = (reject_overlaps_iff m.protected).0 e';
      apart = λ p. reject_shared-eq-ok m.inherited m.protected p e'';
      guarded = guarded_of m.protected m.lock_file _ f'';
    }

owners-length-sorted :
    (p : Text) (roots : List Text) → length (owners p (sorted roots)) ≡ length (owners p roots)
unfolding sorted
owners-length-sorted p roots = sort_by-kept text_le (λ root. covers root p) roots

guarded_sorted :
    (roots paths : List Text)
    → all (λ path. any (λ root. overlaps root path) roots) paths ≡ true
    → all (λ path. any (λ root. overlaps root path) (sorted roots)) paths ≡ true
guarded_sorted roots [] h = refl
guarded_sorted roots (q ∷ qs) h =
    ground (arith, any-sorted (λ root. overlaps root q) roots, guarded_sorted roots qs)

pub sorted-IsExclusive :
    (inherited protected : List Text) (lock_file : Text)
    → IsExclusive inherited protected lock_file
    → IsExclusive (sorted inherited) (sorted protected) lock_file
sorted-IsExclusive inherited protected lock_file i = record {
  single_inherited = λ p. omega (arith, owners-length-sorted p inherited, i.single_inherited p);
  single_protected = λ p. omega (arith, owners-length-sorted p protected, i.single_protected p);
  apart = λ p u. rw under-sorted (i.apart p (rw under-sorted at u));
  guarded = guarded_sorted protected (union required_protected_paths (lock_file ∷ [])) i.guarded;
}
