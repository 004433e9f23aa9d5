-- ===== src/Inheritance/Contract/Sound.antt =====
-- `validate_inheritance`: what an accepted contract promises.
use chat_chart.Inheritance.Files.{
  System, IgnoreEntries, read_template_sync_ignore, read_json, manifest_path,
}
use chat_chart.Inheritance.Contract.{
  read_lock, union, Contract, commit_id, zero_commit, required_template_sync_ignores,
  validate_inheritance, validate_template_sync_ignore, require, read_manifest, check_ownership,
}
use chat_chart.Base.{
  Text, ◌≡◌, Value, List, ok, some, sorted, true, ◌≢◌, false, arith, any-append, keep_if, not,
  contains, >>=-eq-ok, raise_if, ◌∙◌, ap, subst, ok-injective, require-eq-ok,
}
use chat_chart.Inheritance.Contract.Ignore.{
  under, kept_local, under-sorted, check_ignore-eq-ok, check_ignore_iff,
}
use chat_chart.Inheritance.Contract.Exclusive.{
  IsExclusive, sorted-IsExclusive, check_ownership-IsExclusive,
}
use chat_chart.Inheritance.Ownership.{covers}
use chat_chart.Inheritance.Errors.{root_missing, root_not_directory}

-- The ignore file under `top` keeps every protected path.
pub record IsKept (S : System) (top : S.FilePath) (c : Contract) : Type 0 where
  pub entries : IgnoreEntries
  pub reads : read_template_sync_ignore S top ≡ ok entries
  pub keeps : (p : Text) → under p c.protected ≡ true → under p entries.positive ≡ true
  pub excepts_none : (p : Text) → under p c.protected ≡ true → under p entries.exceptions ≡ false

pub record IsSound (S : System) (root : Text) (c : Contract) : Type 0 where
  pub top : S.FilePath
  pub resolves : S.resolve (S.path root) ≡ some top
  pub exclusive : IsExclusive c.inherited c.protected c.lock_file
  pub kept : IsKept S top c
  pub is_commit : commit_id c.parent.commit ≡ true
  pub not_zero : c.parent.commit ≢ zero_commit

read_lock-commit :
    (repo : Text) (v : Value) {commit : Text}
    → read_lock repo v ≡ ok commit
    → (commit_id commit ≡ true) × (commit ≢ zero_commit)
unfolding read_lock
read_lock-commit repo v h = ground arith

kept_protected :
    (p : Text) (protected : List Text)
    → under p (sorted protected) ≡ true
    → under p (kept_local protected) ≡ true
unfolding union
kept_protected p protected u = ground (
  arith,
  under-sorted p protected,
  any-append (λ root. covers root p) protected
      (keep_if (λ y. not (contains y protected)) required_template_sync_ignores),
)

module _ (S : System) (root : Text) where
  -- A contract that `validate_inheritance` accepts: no path lies under two inherited roots, under two
  -- protected roots or under one of each; a protected root overlaps the lock file and each required
  -- path; the ignore file keeps every protected path and excepts none; and the locked commit is a
  -- full commit name other than zero.
  pub validate_inheritance-IsSound :
      {c : Contract} → validate_inheritance S root ≡ ok c → IsSound S root c
  unfolding validate_inheritance validate_template_sync_ignore
  validate_inheritance-IsSound {c} h =
      let (top, e1, h1) = >>=-eq-ok (require (S.resolve (S.path root)) root_missing) _ h in
      let (_, _, h2) = >>=-eq-ok (raise_if (not (S.is_dir top)) root_not_directory) _ h1 in
      let (v, _, h3) = >>=-eq-ok (read_json S top manifest_path) _ h2 in
      let (m, _, h4) = >>=-eq-ok (read_manifest v) _ h3 in
      let (_, e5, h5) = >>=-eq-ok (check_ownership m) _ h4 in
      let (required, e6, h6) = >>=-eq-ok (validate_template_sync_ignore S top m.protected) _ h5 in
      let (w, _, h7) = >>=-eq-ok (read_json S top m.lock_file) _ h6 in
      let (commit, e8, h8) = >>=-eq-ok (read_lock m.parent_repository w) _ h7 in
      let (entries, e9, e10) = >>=-eq-ok (read_template_sync_ignore S top) _ e6 in
      let listed = check_ignore-eq-ok entries m.protected e10 in
      let keeps = (check_ignore_iff entries m.protected).0 (e10 ∙ ap ok listed) in
      let (is_commit, not_zero) = read_lock-commit m.parent_repository w e8 in
      subst (IsSound S root) (ok-injective h8) (record {
        top = top;
        resolves = require-eq-ok _ _ e1;
        exclusive =
            sorted-IsExclusive m.inherited m.protected m.lock_file
              (check_ownership-IsExclusive m e5);
        kept = record {
          entries = entries;
          reads = e9;
          keeps = λ p u. (keeps p (kept_protected p m.protected u)).0;
          excepts_none = λ p u. (keeps p (kept_protected p m.protected u)).1;
        };
        is_commit = is_commit;
        not_zero = not_zero;
      })
