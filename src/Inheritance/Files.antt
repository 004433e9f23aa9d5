-- ===== src/Inheritance/Files.antt =====
-- scripts/template_inheritance.py: the file system and Git as the script sees them, `_unique_object`,
-- `_read_json` and `_read_template_sync_ignore`.
-- `System` stands for pathlib, the file system, `json.loads` without its hook, and the Git program:
-- one unknown snapshot, since no operation of the script writes.
pub mod Unique
use chat_chart.Base.{
  ℕ, Bool, false, not, ◌||◌, Option, List, [], ◌∷◌, ◌++◌, ltb, if◌then◌else◌, is_empty, drop,
  drop_last, ok, ◌>>=◌, ◌>>◌, raise_if, rethrow, Text, codes, contains, starts_with, ends_with,
  strip, splitlines, Value, str, arr, obj, Items, nil, cons, Fields, end, field, Dict, from_entries,
  null, bool, int, real, require,
}
use chat_chart.Inheritance.Errors.{
  duplicate_key, not_inside_root, uses_symlink, too_large, not_json, not_text, bad_ignore_entry,
}
use chat_chart.Inheritance.Ownership.{M, ownership_root}

-- What `subprocess.run` gives: an `OSError` or `SubprocessError`, or the exit code and the output.
pub data GitOutcome : Type 0 where
  could_not_run : GitOutcome
  -- A `UnicodeDecodeError` on the output.
  undecodable : GitOutcome
  exited : (returncode : ℕ) (stdout : Text) → GitOutcome

pub record System : Type 1 where
  pub FilePath : Type 0
  pub path : Text → FilePath
  pub join_path : FilePath → Text → FilePath
  pub same : FilePath → FilePath → Bool
  pub is_relative_to : FilePath → FilePath → Bool
  pub path_text : FilePath → Text
  -- `resolve(strict=True)`, where `none` is an `OSError`.
  pub resolve : FilePath → Option FilePath
  -- `resolve()`
  pub resolve_lenient : FilePath → FilePath
  pub is_dir : FilePath → Bool
  pub is_file : FilePath → Bool
  pub is_symlink : FilePath → Bool
  pub exists : FilePath → Bool
  pub is_executable : FilePath → Bool
  pub size : FilePath → Option ℕ
  -- `read_text`, where `none` is an `OSError` or a `UnicodeError`.
  pub read_text : FilePath → Option Text
  -- `json.loads`, where an object still holds every pair of its text.
  pub parse_json : Text → Option Value
  pub run_git : FilePath → List Text → GitOutcome

abbrev pub manifest_path : Text
manifest_path = codes ".github/inheritance/manifest.json"

abbrev pub template_sync_ignore_path : Text
template_sync_ignore_path = codes ".templatesyncignore"

abbrev pub max_contract_bytes : ℕ
max_contract_bytes = 1_000_000

-- The loop of `_unique_object`, over the keys that it has seen.
unique_keys : List Text → Dict → M (Unit {0})
unique_keys seen [] = ok tt
unique_keys seen ((key, _) ∷ pairs) =
    raise_if (contains key seen) (duplicate_key key) >> unique_keys (key ∷ seen) pairs

-- `_unique_object`: the pairs of one JSON object as a dict.
unfoldable pub unique_object : Dict → M Dict
unfolding unique_keys
unique_object pairs = unique_keys [] pairs >> ok pairs

-- `object_pairs_hook=_unique_object`: the hook on every object, the inner ones first.
unfoldable mutual
  pub with_hook : Value → M Value
  with_hook (obj fs) =
      with_hook_fields fs >>= λ d. unique_object d >>= λ u. ok (obj (from_entries u))
  with_hook (arr vs) = with_hook_items vs >>= λ ws. ok (arr ws)
  with_hook null = ok null
  with_hook (bool b) = ok (bool b)
  with_hook (int n) = ok (int n)
  with_hook (real t) = ok (real t)
  with_hook (str t) = ok (str t)

  with_hook_items : Items → M Items
  with_hook_items nil = ok nil
  with_hook_items (cons v vs) = with_hook v >>= λ w. with_hook_items vs >>= λ ws. ok (cons w ws)

  with_hook_fields : Fields → M Dict
  with_hook_fields end = ok []
  with_hook_fields (field k v fs) =
      with_hook v >>= λ w. with_hook_fields fs >>= λ d. ok ((k, w) ∷ d)

-- The entries of the ignore file: what it keeps local, and the exceptions that it takes back.
pub record IgnoreEntries : Type 0 where
  pub positive : List Text
  pub exceptions : List Text

abbrev pub is_exception : Text → Bool
is_exception entry = starts_with entry (codes ":!")

-- The ownership root that a line of the ignore file names.
unfoldable pub root_entry : Text → Text
unfolding starts_with ends_with
root_entry entry =
    let named = if is_exception entry then drop 2 entry else entry in
    if ends_with named (codes "/**") then drop_last 2 named else named

-- The loop over the lines.
unfoldable pub ignore_entries : List Text → IgnoreEntries → M IgnoreEntries
unfolding root_entry strip ownership_root
ignore_entries [] found = ok found
ignore_entries (line ∷ lines) found =
    let entry = strip line in
    let next : M IgnoreEntries = (do
      root ← rethrow (λ _. bad_ignore_entry) (ownership_root (str (root_entry entry)) false)
      ok (
          if is_exception entry
          then record found { exceptions = found.exceptions ++ (root ∷ []) }
          else record found { positive = found.positive ++ (root ∷ []) })) in
    (if is_empty entry || starts_with entry (codes "#") then ok found else next) >>= λ found'.
    ignore_entries lines found'

module _ (S : System) where
  -- The tests on a path that `_read_json` and `_read_template_sync_ignore` make.
  unfoldable pub read_json : S.FilePath → Text → M Value
  unfolding with_hook unique_object
  read_json root relative_path =
      let candidate = S.join_path root relative_path in
      do
        resolved ← require (S.resolve candidate) not_inside_root
        raise_if (not (S.same resolved candidate)) uses_symlink
        raise_if (not (S.is_relative_to resolved root)) not_inside_root
        raise_if (not (S.is_file resolved)) not_inside_root
        size ← require (S.size resolved) not_json
        raise_if (ltb max_contract_bytes size) too_large
        text ← require (S.read_text resolved) not_json
        value ← require (S.parse_json text) not_json
        with_hook value

  unfoldable pub read_template_sync_ignore : S.FilePath → M IgnoreEntries
  unfolding ignore_entries splitlines
  read_template_sync_ignore root =
      let candidate = S.join_path root template_sync_ignore_path in
      do
        resolved ← require (S.resolve candidate) not_inside_root
        raise_if
            (not (S.same resolved candidate)
              || not (S.is_relative_to resolved root)
              || not (S.is_file resolved))
            uses_symlink
        size ← require (S.size resolved) not_text
        raise_if (ltb max_contract_bytes size) too_large
        text ← require (S.read_text resolved) not_text
        ignore_entries (splitlines text) (record { positive = []; exceptions = [] })
