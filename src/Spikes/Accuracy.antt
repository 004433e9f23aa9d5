-- ===== src/Spikes/Accuracy.antt =====
-- spikes/nl2sql-accuracy/run_spike.py: the guards on generated SQL, the comparison of its rows with the expected
-- answers, and the run over the questions. `World` stands for the database and the language model.
pub mod Run
pub mod Guards
pub mod Safety
pub mod Verdicts
pub mod ExitCode
use chat_chart.Base.{
  ℕ, zero, suc, ◌+◌, ◌-◌, ◌≤◌, ◌<◌, ◌≡◌, refl, sym, ap, ◌∙◌, subst, ◌≢◌, ◌↔◌, ◌⊎◌, inl, inr, ite,
  Bool, true, false, not, ◌&&◌, ◌||◌, Option, none, some, List, [], ◌∷◌, ◌++◌, arith, Result, ok,
  err, ◌>>=◌, ◌>>◌, if◌then◌else◌, ◌==◌, Text, Value, codes, has_substring, traverse, map, raise_if,
  nat_eq,
}
use chat_chart.Spikes.Rows.{
  Values, norm_rows, are_near, RunError, same_rows, type_error, value_error, index_error, single,
  same_row,
}
use chat_chart.Spikes.Sql.{statement_of, without_quotes, has_word, Characters, begins_with}
use chat_chart.Spikes.Seed.{Tables, index_error}
use chat_chart.Spikes.Expected.{
  tenant, M, sales_june_2026, order_count_this_month, sales_by_store_h1_2026,
  top3_categories_q2_2026, monthly_sales_2025, sales_last_30_days, mom_growth_may_2026,
  top3_products_by_qty_june_2026,
}

-- The functions that questions.json names under `expected_fn`.
pub data ExpectedFunction : Type 0 where
  q1 q2 q3 q4 q5 q6 q7 q12 : ExpectedFunction

-- `f"'{TENANT}'"` and `f'"{TENANT}"'`
abbrev pub quoted : ℕ → Text
quoted c = (c ∷ tenant) ++ (c ∷ [])

abbrev pub forbidden : List Text
forbidden =
    codes "insert"
    ∷ codes "update"
    ∷ codes "delete"
    ∷ codes "drop"
    ∷ codes "alter"
    ∷ codes "attach"
    ∷ codes "pragma"
    ∷ []

-- The guards of `exec_sql`, up to the connection: the statement to run, or the message.
unfoldable pub guard : Characters → Text → Result Text Text
unfolding statement_of without_quotes has_substring has_word
guard C sql =
    let s = statement_of sql in
    raise_if (not (begins_with C.is_word C.same_letter (codes "select" ∷ codes "with" ∷ []) s))
      (codes "rejected: not a SELECT")
    >> raise_if (not (has_substring s (quoted 39) || has_substring s (quoted 34)))
        (codes "rejected: missing tenant filter")
    >> raise_if (has_substring sql (codes "t_bravo"))
        (codes "rejected: references other tenant t_bravo")
    >> raise_if (has_substring sql (codes "t_charlie"))
        (codes "rejected: references other tenant t_charlie")
    >> raise_if (has_word C.is_word nat_eq forbidden none (C.lower (without_quotes s)))
        (codes "rejected: forbidden keyword")
    >> ok s

module _ (V : Values) where
  -- The answer of a function of expected.py: a number, or rows.
  pub data Want : Type 0 where
    one : V.Value → Want
    many : List (List V.Value) → Want

  abbrev pair_row : Text × ℕ → List V.Value
  pair_row (name, n) = V.of_text name ∷ V.of_nat n ∷ []

  abbrev scalar : Tables → (Tables → M ℕ) → M Want
  scalar t question = question t >>= λ n. ok (one (V.of_nat n))

  abbrev table : Tables → (Tables → M (List (Text × ℕ))) → M Want
  table t question = question t >>= λ rows. ok (many (map pair_row rows))

  -- `getattr(expected_mod, q["expected_fn"])()` on the tables of `seed.generate`
  unfoldable pub want : Tables → ExpectedFunction → M Want
  want t q1 = scalar t sales_june_2026
  want t q2 = scalar t (λ u. ok (order_count_this_month u))
  want t q3 = table t sales_by_store_h1_2026
  want t q4 = table t top3_categories_q2_2026
  want t q5 = table t monthly_sales_2025
  want t q6 = scalar t sales_last_30_days
  want t q7 = mom_growth_may_2026 V.floats t >>= λ x. ok (one (V.of_float x))
  want t q12 = table t top3_products_by_qty_june_2026

  -- `got[0][0] == want`; rows are no value of a cell.
  same_scalar : Option V.Value → Want → Result RunError Bool
  same_scalar none w = ok false
  same_scalar (some c) (one d) = ok (V.same c d)
  same_scalar (some c) (many rows) = ok false

  near_scalar : Option V.Value → Want → Result RunError Bool
  unfolding are_near
  near_scalar none w = ok false
  near_scalar (some c) (one d) = if V.is_number c then are_near V 5 c d else ok false
  near_scalar (some c) (many rows) =
      if V.is_number c then (V.to_float c >>= λ _. err type_error) else ok false

  -- `[tuple(…) for r in want]`
  unfoldable pub want_rows : Want → Result RunError (List (List V.Value))
  unfolding norm_rows
  want_rows (one c) = err type_error
  want_rows (many rows) = ok (norm_rows V 1 rows)

  second : List V.Value → Result RunError V.Value
  second (c ∷ d ∷ r) = ok d
  second r = err index_error

  -- The branch `rows_ordered_ties`.
  same_but_ties : (got wanted : List (List V.Value)) → Result RunError Bool
  unfolding same_rows second
  same_but_ties got wanted = do
    sorted_got ← V.sorted_rows got
    sorted_wanted ← V.sorted_rows wanted
    let columns = do
      left ← traverse second got
      right ← traverse second wanted
      ok (same_row V left right)
    if same_rows V sorted_got sorted_wanted then columns else ok false

  compare_rows : (kind : Text) → List (List V.Value) → Want → Result RunError Bool
  unfolding want_rows same_rows same_but_ties
  compare_rows kind got w = want_rows w >>= λ wanted.
      if kind == codes "rows_ordered"
      then ok (same_rows V got wanted)
      else if kind == codes "rows_ordered_ties"
      then same_but_ties got wanted
      else err value_error

  -- `compare`, without the text of the detail.
  unfoldable pub compare : (kind : Text) → List (List V.Value) → Want → Result RunError Bool
  unfolding norm_rows same_scalar near_scalar compare_rows
  compare kind rows w =
      let got = norm_rows V 1 rows in
      if kind == codes "scalar"
      then same_scalar (single V got) w
      else if kind == codes "scalar_pct"
      then near_scalar (single V got) w
      else compare_rows kind got w
