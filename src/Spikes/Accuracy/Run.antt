-- ===== src/Spikes/Accuracy/Run.antt =====
-- spikes/nl2sql-accuracy/run_spike.py: `exec_sql` on the database and the loop of `main` over the questions.
use chat_chart.Base.{
  ℕ, Bool, true, false, Option, none, some, List, [], ◌∷◌, ◌++◌, Result, ok, err, ◌>>=◌,
  if◌then◌else◌, ◌==◌, Text, contains, codes, nat_eq, length, rethrow, keep_if, not,
}
use chat_chart.Spikes.Rows.{attribute_error, driver_error}
use chat_chart.Spikes.Service.{Reply, no_object, fields, Raised}
use chat_chart.Spikes.Service.{Answer, World, go_on, run_statement}
use chat_chart.Spikes.Rows.{Values, Usage, cost_jpy, RunError, key_error, in_expected}
use chat_chart.Spikes.Accuracy.{ExpectedFunction, Want, want, guard, compare}
use chat_chart.Spikes.Sql.{Characters}
use chat_chart.Spikes.Seed.{Tables}

pub data Expect : Type 0 where
  clarify : Expect
  refuse : Expect
  result : ExpectedFunction → (kind : Text) → Expect

pub record Question : Type 0 where
  pub id : Text
  pub category : Text
  pub text : Text
  pub expect : Expect

pub data Verdict : Type 0 where
  pass fail error skip : Verdict

abbrev pub is_pass : Verdict → Bool
is_pass pass = true
is_pass fail = false
is_pass error = false
is_pass skip = false

abbrev pub is_skip : Verdict → Bool
is_skip pass = false
is_skip fail = false
is_skip error = false
is_skip skip = true

-- The parts of the detail of an outcome.
pub data Detail (V : Values) : Type 0 where
  no_answer expected_sql action_given : Detail V
  message : Text → Detail V
  compared : (got : List (List V.Value)) → Want V → Detail V

pub record Outcome (V : Values) : Type 0 where
  pub question : Question
  pub verdict : Verdict
  pub detail : Detail V
  pub usage : Option Usage

-- The file of `--answers`, or the API with the id of the model.
pub data Source : Type 0 where
  offline : (Text → Option Reply) → Source
  api : (model : Text) → Source

-- `action in ("clarify", "refuse")`
abbrev pub declines : Option Text → Bool
declines none = false
declines (some action) = contains action (codes "clarify" ∷ codes "refuse" ∷ [])

-- `action == "sql"`
abbrev pub is_sql : Option Text → Bool
is_sql none = false
is_sql (some action) = action == codes "sql"

abbrev pub verdict_of : Bool → Verdict
verdict_of same = if same then pass else fail

-- How `exec_sql` fails: with the message that it returns, or with an exception that it does not catch.
pub data Failure : Type 0 where
  returned : Text → Failure
  escaped : Failure

-- `except sqlite3.Error as e`
unfoldable pub sqlite_error : Raised → Failure
sqlite_error e = if e.in_database then returned (codes "sqlite error: " ++ e.text) else escaped

module _ (C : Characters) (V : Values) (t : Tables) where
  -- `PRICING[model]`
  unfoldable pub prices : Text → Option (V.floats.Float × V.floats.Float)
  prices model =
      if model == codes "claude-opus-4-8"
      then some (V.literal 500 2, V.literal 2500 2)
      else if model == codes "claude-sonnet-5"
      then some (V.literal 300 2, V.literal 1500 2)
      else if model == codes "claude-haiku-4-5"
      then some (V.literal 100 2, V.literal 500 2)
      else if contains model
          (codes "gemini-3.5-flash" ∷ codes "gemini-2.5-flash" ∷ codes "gemini-flash-latest" ∷ [])
      then some (V.literal 30 2, V.literal 250 2)
      else none

  abbrev pub outcome : Question → Verdict → Detail V → Option Usage → Outcome V
  outcome q v d u = record { question = q; verdict = v; detail = d; usage = u }

  module _ (W : World V) where
    abbrev pub Step {ℓ} : Type ℓ → Type ℓ
    Step A = W.State → W.State × A

    unfoldable pub exec_sql : Text → Step (Result Failure (List (List V.Value)))
    unfolding guard run_statement sqlite_error
    exec_sql sql w = run_statement W sqlite_error returned (guard C sql) w

    -- What `main` does with the rows, or with the error.
    unfoldable pub settled :
        Question
        → ExpectedFunction
        → (kind : Text) → Option Usage
        → Result Failure (List (List V.Value))
        → Result RunError (Outcome V)
    unfolding want compare
    settled q fn kind u (err (returned e)) = ok (outcome q fail (message e) u)
    settled q fn kind u (err escaped) = err driver_error
    settled q fn kind u (ok rows) = do
      wanted ← rethrow in_expected (want V t fn)
      same ← compare V kind rows wanted
      ok (outcome q (verdict_of same) (compared rows wanted) u)

    unfoldable pub run_sql :
        Question
        → ExpectedFunction
        → (kind : Text) → Option Usage
        → Option Text
        → Step (Result RunError (Outcome V))
    unfolding exec_sql settled
    run_sql q fn kind u none w = (w, err key_error)
    run_sql q fn kind u (some sql) w =
        let (w1, rows) = exec_sql sql w in (w1, settled q fn kind u rows)

    unfoldable pub expecting :
        Expect → Question → Answer → Option Usage → Step (Result RunError (Outcome V))
    unfolding run_sql
    expecting clarify q a u w = (w, ok (outcome q (verdict_of (declines a.action)) action_given u))
    expecting refuse q a u w = (w, ok (outcome q (verdict_of (declines a.action)) action_given u))
    expecting (result fn kind) q a u w =
        if is_sql a.action
        then run_sql q fn kind u a.sql w
        else (w, ok (outcome q fail expected_sql u))

    -- The body of the loop from `action = ans.get("action")` on.
    unfoldable pub answered : Question → Answer → Option Usage → Step (Result RunError (Outcome V))
    unfolding expecting
    answered q a u w = expecting q.expect q a u w

    -- `ans.get` on what is no object is an `AttributeError`.
    unfoldable pub replied : Question → Reply → Option Usage → Step (Result RunError (Outcome V))
    unfolding answered
    replied q no_object u w = (w, err attribute_error)
    replied q (fields a) u w = answered q a u w

    abbrev pub Total : Type 0
    Total = V.floats.Float

    abbrev pub with_total :
        Total → Result RunError (Outcome V) → Result RunError (Outcome V × Total)
    with_total total r = r >>= λ o. ok (o, total)

    unfoldable pub with_file :
        Option Reply → Question → Total → Step (Result RunError (Outcome V × Total))
    unfolding replied
    with_file none q total w = (w, ok (outcome q skip no_answer none, total))
    with_file (some a) q total w = let (w1, r) = replied q a none w in (w1, with_total total r)

    unfoldable pub with_cost :
        Result RunError Total
        → Reply
        → Usage
        → Question
        → Total
        → Step (Result RunError (Outcome V × Total))
    unfolding replied
    with_cost (err e) a u q total w = (w, err e)
    with_cost (ok cost) a u q total w =
        let (w1, r) = replied q a (some u) w in (w1, with_total (V.plus total cost) r)

    unfoldable pub with_reply :
        Text
        → Result Text (Reply × Usage)
        → Question
        → Total
        → Step (Result RunError (Outcome V × Total))
    unfolding with_cost cost_jpy prices
    with_reply model (err e) q total w =
        (w, ok (outcome q error (message (codes "api error: " ++ e)) none, total))
    with_reply model (ok (a, u)) q total w = with_cost (cost_jpy V (prices model) u) a u q total w

    -- The body of the loop, with `total_cost`.
    unfoldable pub one_question :
        Source → Question → Total → Step (Result RunError (Outcome V × Total))
    unfolding with_file with_reply
    one_question (offline answers) q total w = with_file (answers q.id) q total w
    one_question (api model) q total w =
        let (w1, reply) = W.ask q.text w in with_reply model reply q total w1

    -- The loop of `main`.
    unfoldable pub all_questions :
        Source → List Question → Total → Step (Result RunError (List (Outcome V) × Total))
    unfolding one_question go_on
    all_questions source [] total w = (w, ok ([], total))
    all_questions source (q ∷ qs) total w =
        let (w1, r) = one_question source q total w in
        go_on r (λ total1. all_questions source qs total1 w1) w1

    -- `0 if passed == n else 1`
    unfoldable pub exit_code : List (Outcome V) → ℕ
    exit_code results =
        if nat_eq (length (keep_if (λ (r : Outcome V). is_pass r.verdict) results))
          (length (keep_if (λ (r : Outcome V). not (is_skip r.verdict)) results))
        then 0
        else 1

    -- `main`, up to the report: its exit code, the outcomes and the total cost.
    unfoldable pub main :
        Source → List Question → Step (Result RunError (ℕ × (List (Outcome V) × Total)))
    unfolding all_questions exit_code
    main source questions w =
        let (w1, r) = all_questions source questions (V.literal 0 1) w in
        (w1, r >>= λ (results, total). ok (exit_code results, (results, total)))
