-- ===== src/Inheritance/Contract.antt =====
-- scripts/template_inheritance.py: `_validate_template_sync_ignore` and `validate_inheritance`.
pub mod Sound
pub mod Exclusive
pub mod Ignore
use chat_chart.Base.{
  ℕ, Bool, true, false, not, ◌&&◌, ◌||◌, Option, some, List, [], ◌∷◌, ◌++◌, leb, nat_eq, any, all,
  length, keep_if, is_empty, ok, ◌>>=◌, ◌>>◌, raise_if, Text, codes, contains, ◌==◌, sorted, Value,
  ℤ, pos, as_int, as_str, require,
}
use chat_chart.Inheritance.Errors.{
  bad_schema_version, owners_overlap, missing_ignores, unsafe_exceptions, lock_repository_differs,
  missing_protected, root_missing, root_not_directory, bad_commit,
}
use chat_chart.Inheritance.Ownership.{
  M, object, get_item, repository, branch, ownership_root, ownership_roots, covers, overlaps,
  reject_overlaps,
}
use chat_chart.Inheritance.Files.{
  read_json, System, IgnoreEntries, read_template_sync_ignore, manifest_path,
}

abbrev pub required_protected_paths : List Text
required_protected_paths =
    codes ".gitignore"
    ∷ codes ".github/governance/repository.json"
    ∷ codes ".github/inheritance/manifest.json"
    ∷ codes ".github/workflows/template-sync.yml"
    ∷ codes ".templatesyncignore"
    ∷ []

abbrev pub required_template_sync_ignores : List Text
required_template_sync_ignores = codes ".github/workflows/" ∷ []

-- `xs | ys` for sets that are listed without duplicates.
unfoldable pub union : List Text → List Text → List Text
unfolding keep_if
union xs ys = xs ++ keep_if (λ y. not (contains y xs)) ys

-- The two tests of `_validate_template_sync_ignore` on the entries that were read.
unfoldable pub check_ignore : IgnoreEntries → List Text → M (List Text)
unfolding union sorted covers overlaps
check_ignore entries protected =
    let required = sorted (union protected required_template_sync_ignores) in
    let missing =
      sorted (keep_if (λ path. not (any (λ entry. covers entry path) entries.positive)) required) in
    let unsafe =
      sorted (keep_if (λ exception. any (overlaps exception) required) entries.exceptions) in
    do
      raise_if (not (is_empty missing)) (missing_ignores missing)
      raise_if (not (is_empty unsafe)) (unsafe_exceptions unsafe)
      ok required

-- `type(v) is not int or v != SCHEMA_VERSION`
unfoldable pub is_schema_version : Option ℤ → Bool
is_schema_version (some (pos n)) = nat_eq n 1
is_schema_version _ = false

-- `[0-9a-f]`
unfoldable pub is_hex : ℕ → Bool
is_hex c = (leb b'0' c && leb c b'9') || (leb b'a' c && leb c b'f')

-- `COMMIT_ID.fullmatch`
unfoldable pub commit_id : Text → Bool
unfolding is_hex
commit_id s = nat_eq (length s) 40 && all is_hex s

-- `"0" * 40`
abbrev pub zero_commit : Text
zero_commit = codes "0000000000000000000000000000000000000000"

pub record Parent : Type 0 where
  pub repository : Text
  pub branch : Text
  pub commit : Text

-- The report of `validate_inheritance`, without its constant fields.
pub record Contract : Type 0 where
  pub parent : Parent
  pub lock_file : Text
  pub inherited : List Text
  pub protected : List Text
  pub sync_required : List Text

-- The nested loops over inherited and protected roots.
reject_against : Text → List Text → M (Unit {0})
reject_against root [] = ok tt
reject_against root (other ∷ rest) =
    raise_if (overlaps root other) (owners_overlap root other) >> reject_against root rest

unfoldable pub reject_shared : List Text → List Text → M (Unit {0})
unfolding overlaps reject_against
reject_shared [] protected = ok tt
reject_shared (root ∷ rest) protected =
    reject_against root protected >> reject_shared rest protected

-- The required paths that no protected root overlaps.
unfoldable pub unprotected : List Text → Text → List Text
unfolding overlaps union sorted keep_if
unprotected protected lock_file = sorted (
    keep_if (λ path. not (any (λ root. overlaps root path) protected))
      (union required_protected_paths (lock_file ∷ [])))

-- The first half of `validate_inheritance`: the manifest's own fields.
pub record Manifest : Type 0 where
  pub parent_repository : Text
  pub parent_branch : Text
  pub lock_file : Text
  pub inherited : List Text
  pub protected : List Text

unfoldable pub read_manifest : Value → M Manifest
unfolding object get_item is_schema_version repository branch ownership_root ownership_roots
read_manifest value = do
  manifest ← object value (
      codes "schema_version"
      ∷ codes "parent"
      ∷ codes "lock_file"
      ∷ codes "inherited_paths"
      ∷ codes "protected_paths"
      ∷ [])
  version ← get_item manifest (codes "schema_version")
  raise_if (not (is_schema_version (as_int version))) bad_schema_version
  parent_value ← get_item manifest (codes "parent")
  parent ← object parent_value (codes "repository" ∷ codes "branch" ∷ [])
  parent_repository ← repository (← get_item parent (codes "repository"))
  parent_branch ← branch (← get_item parent (codes "branch"))
  lock_file ← ownership_root (← get_item manifest (codes "lock_file")) true
  inherited ← ownership_roots (← get_item manifest (codes "inherited_paths"))
  protected ← ownership_roots (← get_item manifest (codes "protected_paths"))
  ok (record {
    parent_repository = parent_repository;
    parent_branch = parent_branch;
    lock_file = lock_file;
    inherited = inherited;
    protected = protected;
  })

-- The part of `validate_inheritance` between the manifest's fields and the ignore file.
unfoldable pub check_ownership : Manifest → M (Unit {0})
unfolding reject_overlaps reject_shared unprotected
check_ownership m = do
  reject_overlaps m.inherited
  reject_overlaps m.protected
  reject_shared m.inherited m.protected
  raise_if (not (is_empty (unprotected m.protected m.lock_file)))
      (missing_protected (unprotected m.protected m.lock_file))

-- The part of `validate_inheritance` behind the read of the lock file: the locked commit.
unfoldable pub read_lock : Text → Value → M Text
read_lock parent_repository value = do
  lock ← object value (codes "schema_version" ∷ codes "parent" ∷ [])
  version ← get_item lock (codes "schema_version")
  raise_if (not (is_schema_version (as_int version))) bad_schema_version
  parent_value ← get_item lock (codes "parent")
  parent ← object parent_value (codes "repository" ∷ codes "commit" ∷ [])
  locked_repository ← repository (← get_item parent (codes "repository"))
  commit_value ← get_item parent (codes "commit")
  raise_if (not (locked_repository == parent_repository)) lock_repository_differs
  commit ← require (as_str commit_value) bad_commit
  raise_if (not (commit_id commit) || commit == zero_commit) bad_commit
  ok commit

module _ (S : System) where
  unfoldable pub validate_template_sync_ignore : S.FilePath → List Text → M (List Text)
  unfolding check_ignore read_template_sync_ignore
  validate_template_sync_ignore root protected =
      read_template_sync_ignore S root >>= λ entries. check_ignore entries protected

  -- `validate_inheritance`
  unfoldable pub validate_inheritance : Text → M Contract
  unfolding read_json read_manifest check_ownership validate_template_sync_ignore read_lock sorted
      object get_item is_schema_version repository commit_id
  validate_inheritance root = do
    repository_root ← require (S.resolve (S.path root)) root_missing
    raise_if (not (S.is_dir repository_root)) root_not_directory
    manifest_value ← read_json S repository_root manifest_path
    m ← read_manifest manifest_value
    check_ownership m
    sync_required ← validate_template_sync_ignore repository_root m.protected
    lock_value ← read_json S repository_root m.lock_file
    commit ← read_lock m.parent_repository lock_value
    ok (record {
      parent = record {
        repository = m.parent_repository;
        branch = m.parent_branch;
        commit = commit;
      };
      lock_file = m.lock_file;
      inherited = sorted m.inherited;
      protected = sorted m.protected;
      sync_required = sync_required;
    })
