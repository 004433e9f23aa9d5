-- ===== src/Tests/Inheritance.antt =====
-- scripts/template_inheritance.py on a small repository and its parent.
use chat_chart.Base.{
  ◌≤◌, ◌≡◌, refl, ◌↔◌, true, false, ◌&&◌, some, List, [], ◌∷◌, ◌++◌, ok, if◌then◌else◌, ◌==◌, Value,
  Text, codes, starts_with, str, obj, contains, text_dec, field, ends_with, arr, int, from_items,
  pos, end, split, length, Perm, sorted,
}
use chat_chart.Inheritance.Contract.{validate_inheritance, Contract, check_ignore}
use chat_chart.Inheritance.Files.{System, GitOutcome, IgnoreEntries, with_hook}
use chat_chart.Inheritance.Main.{Command, Printed, exit_code, main, finished}
use chat_chart.Inheritance.Main.Reports.{IsReport, main-IsReport}
use chat_chart.Inheritance.Plan.{plan_inheritance, Plan, plan_changes, changes, no_paths}
use chat_chart.Inheritance.Plan.Protects.{IsPlanFor, plan_inheritance-IsPlanFor}
use chat_chart.Inheritance.Ownership.{overlaps, reject_overlaps, ownership_root, body, is_directory}
use chat_chart.Inheritance.Ownership.Safety.{resolve_parts, descend, ownership_root_below}
use chat_chart.Inheritance.Parent.{changed_paths, next_commit}
use chat_chart.Inheritance.Parent.History.{NextOf, next_commit_lem}
use chat_chart.Inheritance.Contract.Sound.{IsSound, validate_inheritance-IsSound}
use chat_chart.Inheritance.Ownership.Overlap.{Shared, overlaps_iff, owners, reject_overlaps_iff}
use chat_chart.Inheritance.Files.Unique.{HasUniqueKeys, with_hook_iff}
use chat_chart.Inheritance.Plan.Placement.{placed_in, IsPlaced}
use chat_chart.Inheritance.Contract.Ignore.{kept_local, Keeps, check_ignore_iff}
use chat_chart.Inheritance.Plan.Owners.{plan_changes-perm}

abbrev texts : List Text → Value
texts ts = arr (from_items (strs ts))
  where
    strs : List Text → List Value
    strs [] = []
    strs (s ∷ ss) = str s ∷ strs ss

abbrev protected_paths : List Text
protected_paths =
    codes ".gitignore" ∷ codes ".github/" ∷ codes ".templatesyncignore" ∷ codes "lock.json" ∷ []

abbrev manifest_value : Value
manifest_value = obj (
    field (codes "schema_version") (int (pos 1)) (
      field (codes "parent")
        (obj (
          field (codes "repository") (str (codes "acme/base"))
            (field (codes "branch") (str (codes "main")) end)))
        (field (codes "lock_file") (str (codes "lock.json")) (
          field (codes "inherited_paths") (texts (codes "docs/" ∷ codes "Makefile" ∷ []))
            (field (codes "protected_paths") (texts protected_paths) end)))))

abbrev locked : Text
locked = codes "00000000000000000000000000000000000000aa"

abbrev candidate : Text
candidate = codes "00000000000000000000000000000000000000bb"

abbrev lock_value : Value
lock_value = obj (
    field (codes "schema_version") (int (pos 1)) (
      field (codes "parent")
        (obj (
          field (codes "repository") (str (codes "acme/base"))
            (field (codes "commit") (str locked) end)))
        end))

abbrev ignore_text : Text
ignore_text =
    codes "# kept\n.gitignore\n.github/**\n.templatesyncignore\nlock.json\n:!docs/notes.md\n"

-- `.git` answers by the subcommand.
abbrev answer : List Text → GitOutcome
answer [] = GitOutcome.could_not_run
answer (c ∷ arguments) =
    if c == codes "remote"
    then GitOutcome.exited 0 (codes "git@github.com:Acme/base.git\n")
    else if c == codes "rev-list"
    then GitOutcome.exited 0 (candidate ++ (10 ∷ (locked ++ (10 ∷ []))))
    else if c == codes "rev-parse"
    then if contains (codes "--verify") arguments
      then GitOutcome.exited 0 (candidate ++ (10 ∷ []))
      else GitOutcome.exited 0 (codes "/parent\n")
    else if c == codes "diff-tree"
    then GitOutcome.exited 0 (
        codes "docs/a.md"
        ++ (0 ∷ (codes ".github/ci.yml" ++ (0 ∷ (codes "README.md" ++ (0 ∷ []))))))
    else if c == codes "ls-tree"
    then GitOutcome.exited 0 (codes "100644 blob 1234" ++ (9 ∷ (codes "docs/a.md" ++ (0 ∷ []))))
    else GitOutcome.exited 0 (codes "5678\n")

abbrev sample : System
sample = record {
  FilePath = Text;
  path = λ t. t;
  join_path = λ a b. a ++ (b'/' ∷ b);
  same = λ a b. a == b;
  is_relative_to = λ a b. starts_with a b;
  path_text = λ t. t;
  resolve = some;
  resolve_lenient = λ t. t;
  is_dir = λ _. true;
  is_file = λ _. true;
  is_symlink = λ _. false;
  exists = λ _. true;
  is_executable = λ _. false;
  size = λ _. some 100;
  read_text = λ p. if ends_with p (codes ".templatesyncignore") then some ignore_text else some p;
  parse_json =
      λ t. if ends_with t (codes "manifest.json") then some manifest_value else some lock_value;
  run_git = λ _ arguments. answer arguments;
}

abbrev contract : Contract
contract = record {
  parent = record { repository = codes "acme/base"; branch = codes "main"; commit = locked };
  lock_file = codes "lock.json";
  inherited = codes "Makefile" ∷ codes "docs/" ∷ [];
  protected =
      codes ".github/" ∷ codes ".gitignore" ∷ codes ".templatesyncignore" ∷ codes "lock.json" ∷ [];
  sync_required =
      codes ".github/"
      ∷ codes ".github/workflows/"
      ∷ codes ".gitignore"
      ∷ codes ".templatesyncignore"
      ∷ codes "lock.json"
      ∷ [];
}

program : Unit {0}
unfolding validate_inheritance plan_inheritance text_dec starts_with ends_with
program = tt

accepted : validate_inheritance sample (codes "/child") ≡ ok contract
unfolding program
accepted = refl

abbrev plan : Plan
plan = record {
  status = changes;
  repository = codes "acme/base";
  branch = codes "main";
  locked_commit = locked;
  target_commit = candidate;
  candidate_commit = some candidate;
  buckets = record no_paths {
    modify = codes "docs/a.md" ∷ [];
    skipped_protected = codes ".github/ci.yml" ∷ [];
    skipped_unowned = codes "README.md" ∷ [];
  };
  total = 3;
}

planned : plan_inheritance sample (codes "/child") (codes "/parent") ≡ ok plan
unfolding program
planned = refl

placed :
    plan_changes sample (codes "/child") (codes "/parent") contract (some candidate)
    ≡ ok plan.buckets
unfolding program
placed = refl

validate_inheritance-IsSound_example : IsSound sample (codes "/child") contract
validate_inheritance-IsSound_example = validate_inheritance-IsSound sample (codes "/child") accepted

plan_inheritance-IsPlanFor_example :
    (c : Contract) × (validate_inheritance sample (codes "/child") ≡ ok c) × IsPlanFor c plan
plan_inheritance-IsPlanFor_example =
    plan_inheritance-IsPlanFor sample (codes "/child") (codes "/parent") planned

exits : exit_code (main sample (Command.plan (codes "/child") (codes "/parent"))) ≡ 0
unfolding program main
exits = refl

main-IsReport_example :
    (p : Printed) × (main sample (Command.plan (codes "/child") (codes "/parent")) ≡ finished p)
    × IsReport sample (Command.plan (codes "/child") (codes "/parent")) p
main-IsReport_example = main-IsReport sample (Command.plan (codes "/child") (codes "/parent")) exits

plan_changes-perm_example :
    (paths : List Text) × (changed_paths sample (codes "/parent") contract.parent.commit candidate
      ≡ ok paths)
    × Perm (placed_in plan.buckets) paths
    × IsPlaced contract plan.buckets
plan_changes-perm_example =
    plan_changes-perm sample (codes "/child") (codes "/parent") candidate contract refl placed

abbrev entries_found : IgnoreEntries
entries_found = record {
  positive = codes ".github/" ∷ codes "lock.json" ∷ [];
  exceptions = codes "docs/notes.md" ∷ [];
}

check_ignore_iff_example :
    (check_ignore entries_found (codes "lock.json" ∷ [])
      ≡ ok (sorted (kept_local (codes "lock.json" ∷ []))))
    ↔ Keeps entries_found (kept_local (codes "lock.json" ∷ []))
check_ignore_iff_example = check_ignore_iff entries_found (codes "lock.json" ∷ [])

reject_overlaps_iff_example :
    (reject_overlaps (codes "docs/" ∷ codes "docs/a" ∷ []) ≡ ok tt)
    ↔ ((p : Text) → length (owners p (codes "docs/" ∷ codes "docs/a" ∷ [])) ≤ 1)
reject_overlaps_iff_example = reject_overlaps_iff (codes "docs/" ∷ codes "docs/a" ∷ [])

overlaps_iff_example :
    (overlaps (codes "docs/") (codes "docs/a") ≡ true) ↔ Shared (codes "docs/") (codes "docs/a")
overlaps_iff_example = overlaps_iff (codes "docs/") (codes "docs/a")

next_commit_lem_example :
    NextOf locked (candidate ∷ locked ∷ []) (next_commit locked (candidate ∷ locked ∷ []))
next_commit_lem_example = next_commit_lem locked (candidate ∷ locked ∷ [])

with_hook_iff_example :
    ((with_hook lock_value ≡ ok lock_value) ↔ HasUniqueKeys lock_value)
    × ((w : Value) → with_hook lock_value ≡ ok w → w ≡ lock_value)
with_hook_iff_example = with_hook_iff lock_value

docs_root : ownership_root (str (codes "docs/a")) true ≡ ok (codes "docs/a")
unfolding program ownership_root
docs_root = refl

ownership_root_below_example :
    (str (codes "docs/a") ≡ str (codes "docs/a"))
    × (resolve_parts [] (split b'/' (body (codes "docs/a")))
        ≡ some (descend [] (split b'/' (body (codes "docs/a")))))
    × (contains (codes ".git") (split b'/' (body (codes "docs/a"))) ≡ false)
    × ((true && is_directory (codes "docs/a")) ≡ false)
ownership_root_below_example = ownership_root_below (str (codes "docs/a")) true [] docs_root
