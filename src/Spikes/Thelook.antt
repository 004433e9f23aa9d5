-- ===== src/Spikes/Thelook.antt =====
-- spikes/nl2sql-thelook/run_thelook.py: the guards on generated SQL for BigQuery and the comparison of its rows
-- with those of the gold statement.
pub mod Run
pub mod Safety
pub mod Verdicts
use chat_chart.Base.{
  ℕ, zero, suc, ◌+◌, ◌-◌, ◌≤◌, ◌<◌, ◌≡◌, refl, sym, ap, ◌∙◌, subst, ◌≢◌, ◌↔◌, ◌⊎◌, inl, inr, ite,
  Bool, true, false, not, ◌&&◌, ◌||◌, Option, none, some, List, [], ◌∷◌, ◌++◌, arith, Result, ok,
  err, ◌>>=◌, ◌>>◌, if◌then◌else◌, ◌==◌, Text, nat_eq, Value, leb, length, is_none, codes,
  has_substring, keep_if, raise_if,
}
use chat_chart.Spikes.Sql.{statement_of, without_quotes, has_word, Characters, begins_with}
use chat_chart.Spikes.Rows.{
  Values, are_near, norm_rows, RunError, index_error, same_rows, single, value_error,
}

abbrev pub dataset : Text
dataset = codes "bigquery-public-data.thelook_ecommerce"

abbrev pub forbidden : List Text
forbidden =
    codes "insert"
    ∷ codes "update"
    ∷ codes "delete"
    ∷ codes "drop"
    ∷ codes "create"
    ∷ codes "merge"
    ∷ codes "alter"
    ∷ codes "call"
    ∷ codes "export"
    ∷ codes "grant"
    ∷ []

-- `[a-zA-Z0-9_]`
unfoldable pub is_name_char : ℕ → Bool
is_name_char c =
    (leb 97 c && leb c 122) || (leb 65 c && leb c 90) || (leb 48 c && leb c 57) || nat_eq c 95

-- `[a-zA-Z0-9_-]`
abbrev is_project_char : ℕ → Bool
is_project_char c = is_name_char c || nat_eq c 45

-- The longest start of the text with such characters, and the rest.
span : (ℕ → Bool) → Text → Text × Text
span p [] = ([], [])
span p (c ∷ s) = let (a, b) = span p s in if p c then (c ∷ a, b) else ([], c ∷ s)

abbrev is_empty : Text → Bool
is_empty [] = true
is_empty (c ∷ s) = false

-- A full stop, and a name of such characters with one at least.
dotted : Text → Option (Text × Text)
unfolding span is_name_char
dotted [] = none
dotted (c ∷ s) =
    let (a, b) = span is_name_char s in
    if nat_eq c 46 && not (is_empty a) then some (a, b) else none

-- A reference to a table: its project and its dataset, and all of its characters.
pub record Reference : Type 0 where
  pub project : Text
  pub data_set : Text
  pub whole : Text

-- "`?"
backquote : Text → Text × Text
backquote [] = ([], [])
backquote (c ∷ s) = if nat_eq c 96 then (c ∷ [], s) else ([], c ∷ s)

abbrev and_then {ℓ κ} : {A : Type ℓ} {B : Type κ} → Option A → (A → Option B) → Option B
and_then none f = none
and_then (some a) f = f a

-- The pattern of `finditer` at the start of a text. No character fits two parts of it in a row, so each part takes
-- all it can.
reference_at : Text → Option Reference
unfolding span dotted backquote is_name_char
reference_at s =
    let (opening, s1) = backquote s in
    let (project, s2) = span is_project_char s1 in
    if is_empty project
    then none
    else and_then (dotted s2) (λ (name, s3). and_then (dotted s3) (λ (table, s4). some (record {
      project = project;
      data_set = name;
      whole = opening ++ (project ++ (46 ∷ (name ++ (46 ∷ (table ++ (backquote s4).0)))));
    })))

skip_after : ℕ → Option Reference → ℕ
skip_after zero none = 0
skip_after zero (some r) = length r.whole - 1
skip_after (suc n) found = n

-- The matches of `re.finditer`, from the left and none inside another; `skip` characters are inside one.
unfoldable pub references : (skip : ℕ) → Text → List Reference
unfolding reference_at skip_after
references skip [] = []
references skip (c ∷ s) =
    let found = reference_at (c ∷ s) in
    let rest = references (skip_after skip found) s in begun skip found rest
  where
    begun : ℕ → Option Reference → List Reference → List Reference
    begun zero (some r) rest = r ∷ rest
    begun zero none rest = rest
    begun (suc n) found rest = rest

-- `f"{m.group(1)}.{m.group(2)}" != DATASET`
abbrev is_foreign : Reference → Bool
is_foreign r = not (r.project ++ (46 ∷ r.data_set) == dataset)

-- The loop over the references: the first foreign one ends it.
unfoldable pub check_references : List Reference → Result Text (Unit {0})
check_references [] = ok tt
check_references (r ∷ rs) =
    let rest = check_references rs in
    if is_foreign r then err (codes "rejected: foreign table ref " ++ r.whole) else rest

-- The guards of `exec_bq`, up to the query: the statement to run, or the message.
unfoldable pub guard : Characters → Text → Result Text Text
unfolding statement_of without_quotes has_substring has_word keep_if check_references references
guard C sql =
    let s = statement_of sql in
    raise_if (not (begins_with C.is_word C.same_letter (codes "select" ∷ codes "with" ∷ []) s))
      (codes "rejected: not a SELECT")
    >> raise_if (has_word C.is_word C.same_letter forbidden none (without_quotes s))
        (codes "rejected: forbidden keyword")
    >> raise_if (not (has_substring (keep_if (λ c. not (nat_eq c 96)) s) dataset))
        (codes "rejected: must fully-qualify thelook_ecommerce tables")
    >> check_references (references 0 s)
    >> ok s

module _ (V : Values) where
  -- The first cell of the only row of the gold statement.
  abbrev gold_cell : List (List V.Value) → Option (Result RunError V.Value)
  gold_cell ((c ∷ r) ∷ []) = some (ok c)
  gold_cell ([] ∷ []) = some (err index_error)
  gold_cell rows = none

  is_float : V.Value → Bool
  is_float c = not (is_none (V.float_in c))

  -- `float(g)` and `float(w)` within 0.02 when one is a float, else `g == w`
  same_cell : V.Value → V.Value → Result RunError Bool
  unfolding is_float are_near
  same_cell g w = if is_float g || is_float w then are_near V 2 g w else ok (V.same g w)

  on_cells :
      (V.Value → V.Value → Result RunError Bool)
      → Option V.Value
      → Option (Result RunError V.Value)
      → Result RunError Bool
  on_cells test none w = ok false
  on_cells test (some g) none = ok false
  on_cells test (some g) (some w) = w >>= λ c. test g c

  -- `compare`, without the text of the detail.
  unfoldable pub compare :
      (kind : Text) → (got_rows want_rows : List (List V.Value)) → Result RunError Bool
  unfolding norm_rows on_cells same_cell are_near same_rows
  compare kind got_rows want_rows =
      let got = norm_rows V 2 got_rows in
      let wanted = norm_rows V 2 want_rows in
      if kind == codes "scalar"
      then on_cells same_cell (single V got) (gold_cell wanted)
      else if kind == codes "scalar_pct"
      then on_cells (are_near V 5) (single V got) (gold_cell wanted)
      else if kind == codes "rows_ordered"
      then ok (same_rows V got wanted)
      else err value_error
