-- ===== src/Governance/Gh.antt =====
-- scripts/github_governance.py: `_gh_get_json`, `_gh_get_status` and `_known`, the reads of GitHub.
-- `Gh` stands for the `gh` program behind `runner`, and for what the script calls of Python's library.
use chat_chart.Base.{
  ℕ, ◌+◌, ◌-◌, ◌*◌, Bool, true, false, not, ◌&&◌, ◌||◌, Option, none, some, List, [], ◌∷◌, ◌++◌, ok,
  err, ◌>>=◌, if◌then◌else◌, leb, splitlines, flatten, Text, starts_with, is_space, Value, lookup,
  codes, bool, nat_eq, ℤ, any, require, int, obj, str, as_list, entries, take, drop, null, as_dict,
  traverse,
}
use chat_chart.Governance.Settings.{M}
use chat_chart.Governance.Errors.{
  read_could_not_run, no_http_status, bad_json, bad_pages, read_failed, unicode_error,
}
use chat_chart.Governance.Inventory.{unknown_text, unknown_value}

-- How a run of `gh` ends: an `OSError` or a `SubprocessError`, a `UnicodeDecodeError` on its output, or an
-- exit with the standard output.
pub data GhOutcome : Type 0 where
  could_not_run : GhOutcome
  undecodable : GhOutcome
  exited : (returncode : ℕ) (stdout : Text) → GhOutcome

pub record Gh : Type 0 where
  -- The runner on a command.
  pub run : List Text → GhOutcome
  -- `json.loads`, where `none` is a `JSONDecodeError`.
  pub parse_json : Text → Option Value
  -- `json.dumps(value, sort_keys=True)`
  pub dumps : Value → Text
  -- `quote(text, safe="")`
  pub quote : Text → Text
  -- `str((source_type, source, ruleset_id))`
  pub reference_text : (source_type source : Text) → ℤ → Text

abbrev get_arguments : List Text
get_arguments =
    codes "gh"
    ∷ codes "api"
    ∷ codes "--method"
    ∷ codes "GET"
    ∷ codes "-H"
    ∷ codes "Accept: application/vnd.github+json"
    ∷ codes "-H"
    ∷ codes "X-GitHub-Api-Version: 2026-03-10"
    ∷ []

abbrev json_command : Bool → Text → List Text
json_command paginate endpoint =
    get_arguments
    ++ ((if paginate then codes "--paginate" ∷ codes "--slurp" ∷ [] else []) ++ (endpoint ∷ []))

abbrev status_command : Text → List Text
status_command endpoint = get_arguments ++ (codes "--include" ∷ endpoint ∷ [])

-- `_known` on what `d.get` returns.
abbrev pub known_int : Option Value → Value
known_int (some (int n)) = int n
known_int _ = unknown_value

abbrev pub known_bool : Option Value → Value
known_bool (some (bool b)) = bool b
known_bool _ = unknown_value

abbrev pub known_str : Option Value → Text
known_str (some (str t)) = t
known_str _ = unknown_text

-- `x.get(key) if type(x) is dict else None`, for an `x` that `.get` may have returned.
unfoldable pub get_in : Option Value → Text → Option Value
unfolding lookup
get_in (some (obj fs)) k = lookup k (entries fs)
get_in _ k = none

-- The items of one page of a paginated response.
page_items : Option Text → Text → Value → M (List Value)
unfolding lookup
page_items none endpoint page = require (as_list page) (bad_pages endpoint)
page_items (some key) endpoint page = do
  d ← require (as_dict page) (bad_pages endpoint)
  v ← require (lookup key d) (bad_pages endpoint)
  require (as_list v) (bad_pages endpoint)

is_ascii_digit : ℕ → Bool
is_ascii_digit c = leb b'0' c && leb c b'9'

is_ascii_word : ℕ → Bool
unfolding is_ascii_digit
is_ascii_word c =
    is_ascii_digit c || (leb b'a' c && leb c b'z') || (leb b'A' c && leb c b'Z') || nat_eq c b'_'

-- `(\d{3})\b` at the head of a text.
three_digits : Text → Option ℕ
unfolding is_ascii_digit is_ascii_word
three_digits (a ∷ b ∷ c ∷ rest) =
    if is_ascii_digit a
      && is_ascii_digit b
      && is_ascii_digit c
      && not (any is_ascii_word (take 1 rest))
    then some (100 * (a - 48) + 10 * (b - 48) + (c - 48))
    else none
three_digits _ = none

-- `\s+` and the digits behind it.
after_spaces : Text → Option ℕ
unfolding is_space three_digits
after_spaces [] = none
after_spaces (c ∷ s) =
    let rest = after_spaces s in
    if is_space c
    then elim (any is_space (take 1 s)) [ true ↦ rest | false ↦ three_digits s ]
    else none

-- `\S+` and what is behind it.
after_word : Text → Option ℕ
unfolding is_space after_spaces
after_word [] = none
after_word (c ∷ s) =
    let rest = after_word s in
    if is_space c
    then none
    else elim (any is_space (take 1 s)) [ true ↦ after_spaces s | false ↦ rest ]

-- The match of `^HTTP/\S+\s+(\d{3})\b`, on a line in ASCII.
unfoldable status_of_line : Text → Option ℕ
unfolding starts_with after_word
status_of_line line = if starts_with line (codes "HTTP/") then after_word (drop 5 line) else none

abbrev first_line : List Text → Text
first_line [] = []
first_line (line ∷ lines) = line

-- The items of all pages.
unfoldable pages_of : Option Text → Text → Option Value → M (List Value)
unfolding page_items flatten
pages_of collection_key endpoint parsed = do
  payload ← require parsed (bad_json endpoint)
  pages ← require (as_list payload) (bad_pages endpoint)
  parts ← traverse (page_items collection_key endpoint) pages
  ok (flatten parts)

module _ (G : Gh) where
  -- `_gh_get_json` without pagination. `null` is also the `None` of an optional read that fails.
  unfoldable pub gh_get_json : Text → Bool → M Value
  gh_get_json endpoint optional = elim (G.run (json_command false endpoint)) [
    | could_not_run ↦ err (read_could_not_run endpoint)
    | undecodable ↦ err unicode_error
    | exited returncode stdout ↦
        if nat_eq returncode 0
        then require (G.parse_json stdout) (bad_json endpoint)
        else if optional
        then ok null
        else err (read_failed endpoint)
  ]

  -- `_gh_get_json` with pagination, which no caller combines with `optional`.
  unfoldable pub gh_get_pages : Text → Option Text → M (List Value)
  unfolding pages_of
  gh_get_pages endpoint collection_key = elim (G.run (json_command true endpoint)) [
    | could_not_run ↦ err (read_could_not_run endpoint)
    | undecodable ↦ err unicode_error
    | exited returncode stdout ↦
        if nat_eq returncode 0
        then pages_of collection_key endpoint (G.parse_json stdout)
        else err (read_failed endpoint)
  ]

  -- `_gh_get_status`
  unfoldable pub gh_get_status : Text → M ℕ
  unfolding status_of_line splitlines
  gh_get_status endpoint = elim (G.run (status_command endpoint)) [
    | could_not_run ↦ err (read_could_not_run endpoint)
    | undecodable ↦ err unicode_error
    | exited returncode stdout ↦
        require (status_of_line (first_line (splitlines stdout))) (no_http_status endpoint)
  ]
