-- ===== src/Governance/Files.antt =====
-- scripts/github_governance.py: `_reject_duplicate_keys`, `_load_json`, `_load_profiles` and
-- `_known_rule_ids`. `Disk` stands for pathlib, the files under it, and `json.load` without its hook:
-- one unknown snapshot, since the script writes no file.
use chat_chart.Base.{
  ℕ, Bool, not, ◌&&◌, ◌||◌, Option, none, some, List, [], ◌∷◌, ok, err, ◌>>=◌, ◌>>◌, if◌then◌else◌,
  Value, require, split, flatten, Text, starts_with, Dict, drop, take, codes, obj, traverse,
  raise_if, length, from_entries, contains, ltb, arr, bool, int, real, str, Items, cons, Fields,
  field, null, nil, end,
}
use chat_chart.Governance.Settings.{M, rule_id}
use chat_chart.Governance.Errors.{
  os_error, bad_policy_file, bad_profile_directory, bad_profile_root, unicode_error,
  bad_profile_file, duplicate_field, many_profiles,
}
use chat_chart.Governance.Profiles.{max_profiles}

-- A read of a file: an `OSError`, a `UnicodeDecodeError`, or its text.
pub data FileText : Type 0 where
  unreadable not_utf8 : FileText
  contents : Text → FileText

pub record Disk : Type 1 where
  pub FilePath : Type 0
  pub join_path : FilePath → Text → FilePath
  pub same : FilePath → FilePath → Bool
  -- `resolve(strict=True)`, where `none` is an `OSError`.
  pub resolve : FilePath → Option FilePath
  -- `resolve()`
  pub resolve_lenient : FilePath → FilePath
  pub is_symlink : FilePath → Bool
  pub exists : FilePath → Bool
  pub is_dir : FilePath → Bool
  pub is_file : FilePath → Bool
  -- `sorted(directory.glob(pattern))`
  pub sorted_glob : FilePath → Text → List FilePath
  pub read_text : FilePath → FileText
  -- `json.load`, where an object still holds every pair of its text.
  pub parse_json : Text → Option Value

-- The loop of `_reject_duplicate_keys`, over the keys that it has seen.
unfoldable distinct_keys : List Text → Dict → M (Unit {0})
distinct_keys seen [] = ok tt
distinct_keys seen ((key, _) ∷ pairs) =
    raise_if (contains key seen) (duplicate_field key) >> distinct_keys (key ∷ seen) pairs

-- `object_pairs_hook=_reject_duplicate_keys`: the hook on every object, the inner ones first.
unfoldable mutual
  unfolding distinct_keys

  hooked : Value → M Value
  hooked (obj fs) = hooked_fields fs >>= λ d. distinct_keys [] d >> ok (obj (from_entries d))
  hooked (arr vs) = hooked_items vs >>= λ ws. ok (arr ws)
  hooked null = ok null
  hooked (bool b) = ok (bool b)
  hooked (int n) = ok (int n)
  hooked (real t) = ok (real t)
  hooked (str t) = ok (str t)

  hooked_items : Items → M Items
  hooked_items nil = ok nil
  hooked_items (cons v vs) = hooked v >>= λ w. hooked_items vs >>= λ ws. ok (cons w ws)

  hooked_fields : Fields → M Dict
  hooked_fields end = ok []
  hooked_fields (field k v fs) = hooked v >>= λ w. hooked_fields fs >>= λ d. ok ((k, w) ∷ d)

abbrev profile_directory : Text
profile_directory = codes ".github/governance/profiles"

-- The identifier of n characters at the head of a text, before a colon.
id_of_length : ℕ → Text → Option Text
unfolding rule_id starts_with
id_of_length n s =
    if rule_id (take n s) && starts_with (drop n s) (codes ":") then some (take n s) else none

first_of : Option Text → Option Text → Option Text
first_of none o = o
first_of (some t) o = some t

-- `^#{2,3} ((?:GR|SEC|WF)-\d{3}):` on a line.
unfoldable heading_id : Text → Option Text
unfolding id_of_length first_of starts_with
heading_id line =
    let level = λ (hashes : Text).
      if starts_with line hashes
      then first_of (id_of_length 6 (drop (length hashes) line))
          (id_of_length 7 (drop (length hashes) line))
      else none in
    first_of (level (codes "## ")) (level (codes "### "))

-- `RULE_HEADING.findall`, line by line.
unfoldable heading_ids : List Text → List Text
unfolding heading_id
heading_ids [] = []
heading_ids (line ∷ lines) =
    let rest = heading_ids lines in elim (heading_id line) [ none ↦ rest | some id ↦ id ∷ rest ]

module _ (D : Disk) where
  -- `_load_json`
  unfoldable pub load_json : D.FilePath → M Value
  unfolding hooked
  load_json path = elim (D.read_text path) [
    | unreadable ↦ err bad_policy_file
    | not_utf8 ↦ err unicode_error
    | contents text ↦ require (D.parse_json text) bad_policy_file >>= hooked
  ]

  -- The tests on the profile files.
  check_profiles : List D.FilePath → M (Unit {0})
  check_profiles [] = ok tt
  check_profiles (path ∷ paths) = do
    resolved ← require (D.resolve path) bad_profile_directory
    raise_if (not (D.same resolved path) || not (D.is_file path)) bad_profile_file
    check_profiles paths

  -- The profile files in a directory that exists.
  unfoldable profile_files : D.FilePath → M (List D.FilePath)
  unfolding check_profiles
  profile_files directory = do
    resolved ← require (D.resolve directory) bad_profile_directory
    raise_if (not (D.same resolved directory) || not (D.is_dir directory)) bad_profile_directory
    let paths = D.sorted_glob directory (codes "*.json")
    raise_if (ltb max_profiles (length paths)) many_profiles
    check_profiles paths
    ok paths

  -- `_load_profiles`
  unfoldable pub load_profiles : D.FilePath → M (List Value)
  unfolding profile_files load_json
  load_profiles root = do
    top ← require (D.resolve root) bad_profile_root
    let directory = D.join_path top profile_directory
    raise_if (D.is_symlink directory) bad_profile_directory
    if D.exists directory then profile_files directory >>= traverse load_json else ok []

  -- The identifiers in the headings of one file.
  file_ids : D.FilePath → M (List Text)
  unfolding heading_ids split
  file_ids path = elim (D.read_text path) [
    | unreadable ↦ err os_error
    | not_utf8 ↦ err unicode_error
    | contents text ↦ ok (heading_ids (split 10 text))
  ]

  -- `_known_rule_ids`, as a list that may repeat an identifier.
  unfoldable pub known_rule_ids : D.FilePath → M (List Text)
  unfolding file_ids flatten
  known_rule_ids root =
      traverse file_ids (D.sorted_glob (D.join_path root (codes ".ai")) (codes "*.md")) >>= λ ids.
      ok (flatten ids)
