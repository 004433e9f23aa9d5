-- ===== src/Inheritance/Parent.antt =====
-- scripts/template_inheritance.py: what is read from the local checkout of the parent repository and
-- from the child's files: `_git` to `_child_entry`.
pub mod History
use chat_chart.Base.{
  ℕ, zero, suc, ◌-◌, Bool, true, not, ◌&&◌, ◌||◌, Option, none, some, List, [], ◌∷◌, ◌++◌, ltb,
  nat_eq, if◌then◌else◌, length, keep_if, is_empty, drop, drop_last, get_elem?, ok, err, ◌>>=◌,
  ◌>>◌, raise_if, traverse, Text, codes, ◌==◌, contains, starts_with, ends_with, split, strip,
  splitlines, casefold, sorted, str, repository_target, require,
}
use chat_chart.Inheritance.Errors.{
  git_could_not_run, git_failed, bad_remote, parent_missing, parent_not_directory,
  parent_not_top_level, parent_origin_differs, bad_target, not_in_history, too_many_changes,
  bad_tree_entry, parent_not_regular, child_uses_symlink, child_not_regular, unicode_error,
}
use chat_chart.Inheritance.Ownership.{M, ownership_root}
use chat_chart.Inheritance.Files.{System, GitOutcome, could_not_run, exited, undecodable}
use chat_chart.Inheritance.Contract.{Contract, commit_id}

abbrev pub max_first_parent_commits : ℕ
max_first_parent_commits = 100_000

abbrev pub max_changed_paths : ℕ
max_changed_paths = 1000

-- How `_git` goes on behind the run.
unfoldable pub git_output : GitOutcome → M Text
git_output could_not_run = err git_could_not_run
git_output undecodable = err unicode_error
git_output (exited returncode stdout) = raise_if (not (nat_eq returncode 0)) git_failed >> ok stdout

-- The repository that a URL names behind one of the prefixes.
abbrev repository_name : Text → Text
repository_name name = if ends_with name (codes ".git") then drop_last 4 name else name

abbrev remote_prefixes : List Text
remote_prefixes =
    codes "https://github.com/" ∷ codes "git@github.com:" ∷ codes "ssh://git@github.com/" ∷ []

-- The loop of `_github_repository`.
unfoldable pub find_repository : Text → List Text → M Text
unfolding repository_target starts_with ends_with
find_repository url [] = err bad_remote
find_repository url (prefix ∷ prefixes) =
    let name = repository_name (drop (length prefix) url) in
    let rest = find_repository url prefixes in
    if starts_with url prefix && repository_target name then ok name else rest

-- `_github_repository`
unfoldable pub github_repository : Text → M Text
unfolding find_repository
github_repository url = find_repository url remote_prefixes

-- `history.index(commit)`, of a commit that is listed.
unfoldable pub index_of : Text → List Text → ℕ
index_of c [] = 0
index_of c (d ∷ ds) = let i = index_of c ds in if d == c then 0 else suc i

-- The end of `_next_parent_commit`: the commit behind the locked one, from the history, newest first.
unfoldable pub next_commit : Text → List Text → M (Option Text)
unfolding index_of
next_commit locked history =
    let index = index_of locked history in
    raise_if (not (contains locked history))
      (not_in_history (ltb max_first_parent_commits (length history)))
    >> ok (if nat_eq index 0 then none else get_elem? history (index - 1))

-- The text before and behind the first `sep`, if there is one: `s.split(sep, 1)` in two pieces.
unfoldable pub split_once : ℕ → Text → Option (Text × Text)
split_once sep [] = none
split_once sep (c ∷ s) =
    let rest = split_once sep s in
    if nat_eq c sep then some ([], s) else elim rest [ none ↦ none | some (a, b) ↦ some (c ∷ a, b) ]

-- `s.rstrip("\0")`
unfoldable pub strip_nuls : Text → Text
strip_nuls [] = []
strip_nuls (c ∷ s) = keep c (strip_nuls s)
  where
    keep : ℕ → Text → Text
    keep zero [] = []
    keep (suc n) [] = suc n ∷ []
    keep d (e ∷ t) = d ∷ e ∷ t

-- A blob's name and whether it is executable.
abbrev pub Entry : Type 0
Entry = Text × Bool

entry_of : Text → Text → List Text → M Entry
entry_of path actual_path (mode ∷ object_type ∷ object_id ∷ []) =
    raise_if
      (not (actual_path == path)
        || not (object_type == codes "blob")
        || not (contains mode (codes "100644" ∷ codes "100755" ∷ [])))
      parent_not_regular
    >> ok (object_id, mode == codes "100755")
entry_of path actual_path _ = err bad_tree_entry

-- `_parent_entry` on the output of `git ls-tree -z`.
unfoldable pub tree_entry : Text → Text → M (Option Entry)
unfolding entry_of split_once strip_nuls split
tree_entry path output =
    let found : M (Option Entry) = (do
      pieces ← require (split_once 9 (strip_nuls output)) bad_tree_entry
      entry ← entry_of path pieces.1 (split 32 pieces.0)
      ok (some entry)) in
    if is_empty output then ok none else found

-- `_changed_paths` on the output of `git diff-tree -z`.
unfoldable pub changed_paths_of : Text → M (List Text)
unfolding sorted split ownership_root
changed_paths_of output =
    let paths = sorted (keep_if (λ path. not (is_empty path)) (split 0 output)) in
    do
      raise_if (ltb max_changed_paths (length paths)) too_many_changes
      traverse (λ path. ownership_root (str path) true) paths

module _ (S : System) where
  -- `_git`
  unfoldable pub git : S.FilePath → List Text → M Text
  unfolding git_output
  git root arguments = git_output (S.run_git root arguments)

  -- `_parent_root`
  unfoldable pub find_parent_root : Text → M S.FilePath
  unfolding git strip
  find_parent_root parent_root = do
    root ← require (S.resolve (S.path parent_root)) parent_missing
    raise_if (not (S.is_dir root)) parent_not_directory
    output ← git root (codes "rev-parse" ∷ codes "--show-toplevel" ∷ [])
    raise_if (not (S.same (S.resolve_lenient (S.path (strip output))) root)) parent_not_top_level
    ok root

  -- `_next_parent_commit`: the target, and the candidate if the lock is behind it.
  unfoldable pub next_parent_commit : S.FilePath → Contract → M (Text × Option Text)
  unfolding git strip github_repository casefold commit_id splitlines next_commit
  next_parent_commit parent_root contract = do
    remote ← git parent_root (codes "remote" ∷ codes "get-url" ∷ codes "origin" ∷ [])
    repository ← github_repository (strip remote)
    raise_if (not (casefold repository == casefold contract.parent.repository))
        parent_origin_differs
    output ← git parent_root (
        codes "rev-parse"
        ∷ codes "--verify"
        ∷ (codes "refs/remotes/origin/" ++ (contract.parent.branch ++ codes "^{commit}"))
        ∷ [])
    let target = strip output
    raise_if (not (commit_id target)) bad_target
    listing ←
        git parent_root
          (codes "rev-list" ∷ codes "--first-parent" ∷ codes "--max-count=100001" ∷ target ∷ [])
    candidate ← next_commit contract.parent.commit (splitlines listing)
    ok (target, candidate)

  -- `_changed_paths`
  unfoldable pub changed_paths : S.FilePath → Text → Text → M (List Text)
  unfolding git changed_paths_of
  changed_paths parent_root locked candidate = do
    output ← git parent_root (
        codes "diff-tree"
        ∷ codes "--no-commit-id"
        ∷ codes "--name-only"
        ∷ codes "-r"
        ∷ codes "-z"
        ∷ codes "--no-renames"
        ∷ locked
        ∷ candidate
        ∷ [])
    changed_paths_of output

  -- `_parent_entry`
  unfoldable pub parent_entry : S.FilePath → Text → Text → M (Option Entry)
  unfolding git tree_entry
  parent_entry parent_root candidate path = do
    output ← git parent_root (codes "ls-tree" ∷ codes "-z" ∷ candidate ∷ codes "--" ∷ path ∷ [])
    tree_entry path output

  -- The loop of `_child_entry` over the parts of the path: `none` if one is missing.
  unfoldable pub walk : S.FilePath → List Text → M (Option S.FilePath)
  walk current [] = ok (some current)
  walk current (part ∷ parts) =
      let next = S.join_path current part in
      let rest = walk next parts in
      raise_if (S.is_symlink next) child_uses_symlink >> (if S.exists next then rest else ok none)

  hash_of : S.FilePath → Option S.FilePath → M (Option Entry)
  unfolding git strip
  hash_of parent_root none = ok none
  hash_of parent_root (some file) = do
    raise_if (not (S.is_file file)) child_not_regular
    output ←
        git parent_root
          (codes "hash-object" ∷ codes "--no-filters" ∷ codes "--" ∷ S.path_text file ∷ [])
    ok (some (strip output, S.is_executable file))

  -- `_child_entry`
  unfoldable pub child_entry : S.FilePath → S.FilePath → Text → M (Option Entry)
  unfolding walk hash_of split
  child_entry child_root parent_root path =
      walk child_root (split b'/' path) >>= λ file. hash_of parent_root file
