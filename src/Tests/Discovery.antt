-- ===== src/Tests/Discovery.antt =====
-- `discover_github` of scripts/github_governance.py on a small repository.
use chat_chart.Base.{
  ◌≡◌, refl, ◌∷◌, [], List, Text, some, codes, ◌==◌, if◌then◌else◌, ok, ends_with, Value, obj, arr,
  field, end, cons, nil, str, bool, true, false, text_dec, contains,
}
use chat_chart.Governance.Gh.{Gh, GhOutcome, gh_get_json, gh_get_pages, gh_get_status}
use chat_chart.Governance.Inventory.{Inventory}
use chat_chart.Governance.Discovery.{discover_github}
use chat_chart.Governance.Discovery.Reads.{IsInventoryOf, discover_github-IsInventoryOf}
use chat_chart.Governance.Discovery.ReadOnly.{only_reads, discover_github-only_reads}

last_text : List Text → Text
last_text [] = []
last_text (t ∷ []) = t
last_text (t ∷ u ∷ ts) = last_text (u ∷ ts)

abbrev branch_value : Value
branch_value = obj (
    field (codes "protected") (bool false) (
      field (codes "commit")
        (obj (field (codes "sha") (str (codes "0123456789abcdef0123456789abcdef01234567")) end))
        end))

abbrev runs_value : Value
runs_value = arr (
    cons
      (obj (
        field (codes "check_runs")
          (arr (cons (obj (field (codes "name") (str (codes "test")) end)) nil)) end))
      nil)

-- What GitHub answers at an endpoint.
answer : Text → Value
unfolding ends_with
answer endpoint =
    if endpoint == codes "repos/acme/chart"
    then obj (field (codes "allow_squash_merge") (bool true) end)
    else if ends_with endpoint (codes "/branches/main")
    then branch_value
    else if ends_with endpoint (codes "/check-runs?per_page=100")
    then runs_value
    else if ends_with endpoint (codes "/private-vulnerability-reporting")
    then obj (field (codes "enabled") (bool true) end)
    else arr (cons (arr nil) nil)

abbrev answering : Gh
answering = record {
  run = λ command.
      if contains (codes "--include") command
      then GhOutcome.exited 0 (codes "HTTP/2.0 204 No Content")
      else GhOutcome.exited 0 (last_text command);
  parse_json = λ t. some (answer t);
  dumps = λ v. [];
  quote = λ t. t;
  reference_text = λ source_type source id. source;
}

discovered :
    (i : Inventory) × (discover_github answering (codes "acme/chart") (codes "main") ≡ ok i)
unfolding answer last_text discover_github gh_get_json gh_get_pages gh_get_status text_dec
discovered = (_, refl)

discover_github-IsInventoryOf_example :
    IsInventoryOf (codes "acme/chart") (codes "main") discovered.0
discover_github-IsInventoryOf_example =
    discover_github-IsInventoryOf answering (codes "acme/chart") (codes "main") discovered.1

discover_github-only_reads_example :
    discover_github (only_reads answering) (codes "acme/chart") (codes "main")
    ≡ discover_github answering (codes "acme/chart") (codes "main")
discover_github-only_reads_example =
    discover_github-only_reads answering (codes "acme/chart") (codes "main")
