-- ===== src/Spikes/Thelook/Run.antt =====
-- spikes/nl2sql-thelook/run_thelook.py: `exec_bq` on BigQuery and the loop of `main` over the questions.
use chat_chart.Base.{
  ℕ, Bool, true, false, Option, none, some, List, [], ◌∷◌, ◌++◌, Result, ok, err, ◌>>=◌,
  if◌then◌else◌, ◌==◌, Text, codes, take, contains, nat_eq, length, keep_if,
}
use chat_chart.Spikes.Rows.{
  attribute_error, Values, RunError, cost_jpy, Usage, key_error, zero_division,
}
use chat_chart.Spikes.Service.{
  Reply, no_object, fields, Raised, Answer, World, go_on, run_statement,
}
use chat_chart.Spikes.Sql.{Characters}
use chat_chart.Spikes.Thelook.{guard, compare}

pub data Expect : Type 0 where
  clarify : Expect
  result : (kind gold_sql : Text) → Expect

pub record Question : Type 0 where
  pub id : Text
  pub category : Text
  pub text : Text
  pub expect : Expect

pub data Verdict : Type 0 where
  pass fail error gold_err : Verdict

abbrev pub is_pass : Verdict → Bool
is_pass pass = true
is_pass fail = false
is_pass error = false
is_pass gold_err = false

-- The parts of the detail of an outcome.
pub data Detail (V : Values) : Type 0 where
  action_given expected_sql : Detail V
  message : Text → Detail V
  compared : (got wanted : List (List V.Value)) → Detail V

pub record Outcome (V : Values) : Type 0 where
  pub question : Question
  pub verdict : Verdict
  pub detail : Detail V
  pub usage : Option Usage

-- `action == word`
abbrev pub acts : Text → Option Text → Bool
acts word none = false
acts word (some action) = action == word

abbrev pub verdict_of : Bool → Verdict
verdict_of same = if same then pass else fail

-- `f"bq error: {str(e)[:200]}"`
abbrev pub bq_error : Raised → Text
bq_error e = codes "bq error: " ++ take 200 e.text

module _ (C : Characters) (V : Values) where
  -- `PRICING[model]`
  unfoldable pub prices : Text → Option (V.floats.Float × V.floats.Float)
  prices model =
      if model == codes "claude-opus-4-8"
      then some (V.literal 500 2, V.literal 2500 2)
      else if contains model
          (codes "gemini-3.5-flash" ∷ codes "gemini-2.5-flash" ∷ codes "gemini-flash-latest" ∷ [])
      then some (V.literal 30 2, V.literal 250 2)
      else none

  abbrev pub outcome : Question → Verdict → Detail V → Option Usage → Outcome V
  outcome q v d u = record { question = q; verdict = v; detail = d; usage = u }

  module _ (W : World V) where
    abbrev pub Step {ℓ} : Type ℓ → Type ℓ
    Step A = W.State → W.State × A

    unfoldable pub exec_bq : Text → Step (Result Text (List (List V.Value)))
    unfolding guard run_statement
    exec_bq sql w = run_statement W bq_error (λ e. e) (guard C sql) w

    -- What `main` does with the rows of both statements, or with the error of the gold one.
    unfoldable pub settled :
        Question
        → (kind : Text) → Usage
        → List (List V.Value)
        → Result Text (List (List V.Value))
        → Result RunError (Outcome V)
    unfolding compare
    settled q kind u got (err e) =
        ok (outcome q gold_err (message (codes "gold sql broken: " ++ e)) (some u))
    settled q kind u got (ok wanted) = do
      same ← compare V kind got wanted
      ok (outcome q (verdict_of same) (compared got wanted) (some u))

    -- The gold statement runs once the statement of the model has.
    unfoldable pub against_gold :
        Question
        → (kind gold_sql : Text) → Usage
        → Result Text (List (List V.Value))
        → Step (Result RunError (Outcome V))
    unfolding exec_bq settled
    against_gold q kind gold_sql u (err e) w =
        (w, ok (outcome q fail (message (codes "model sql: " ++ e)) (some u)))
    against_gold q kind gold_sql u (ok got) w =
        let (w1, wanted) = exec_bq gold_sql w in (w1, settled q kind u got wanted)

    unfoldable pub run_sql :
        Question → (kind gold_sql : Text) → Usage → Option Text → Step (Result RunError (Outcome V))
    unfolding exec_bq against_gold
    run_sql q kind gold_sql u none w = (w, err key_error)
    run_sql q kind gold_sql u (some sql) w =
        let (w1, got) = exec_bq sql w in against_gold q kind gold_sql u got w1

    unfoldable pub expecting :
        Expect → Question → Answer → Usage → Step (Result RunError (Outcome V))
    unfolding run_sql
    expecting clarify q a u w =
        (w, ok (outcome q (verdict_of (acts (codes "clarify") a.action)) action_given (some u)))
    expecting (result kind gold_sql) q a u w =
        if acts (codes "sql") a.action
        then run_sql q kind gold_sql u a.sql w
        else (w, ok (outcome q fail expected_sql (some u)))

    -- `ans.get` on what is no object is an `AttributeError`.
    unfoldable pub replied : Question → Reply → Usage → Step (Result RunError (Outcome V))
    unfolding expecting
    replied q no_object u w = (w, err attribute_error)
    replied q (fields a) u w = expecting q.expect q a u w

    abbrev pub Total : Type 0
    Total = V.floats.Float

    -- The body of the loop from `total_cost += …` on.
    unfoldable pub with_cost :
        Result RunError Total
        → Reply
        → Usage
        → Question
        → Total
        → Step (Result RunError (Outcome V × Total))
    unfolding replied
    with_cost (err e) a u q total w = (w, err e)
    with_cost (ok cost) a u q total w =
        let (w1, r) = replied q a u w in (w1, r >>= λ o. ok (o, V.plus total cost))

    unfoldable pub with_reply :
        Text
        → Result Text (Reply × Usage)
        → Question
        → Total
        → Step (Result RunError (Outcome V × Total))
    unfolding with_cost cost_jpy prices
    with_reply model (err e) q total w =
        (w, ok (outcome q error (message (codes "api error: " ++ take 160 e)) none, total))
    with_reply model (ok (a, u)) q total w = with_cost (cost_jpy V (prices model) u) a u q total w

    -- The loop of `main`.
    unfoldable pub all_questions :
        (model : Text) → List Question → Total → Step (Result RunError (List (Outcome V) × Total))
    unfolding with_reply go_on
    all_questions model [] total w = (w, ok ([], total))
    all_questions model (q ∷ qs) total w =
        let (w1, reply) = W.ask q.text w in
        let (w2, r) = with_reply model reply q total w1 in
        go_on r (λ total1. all_questions model qs total1 w2) w2

    -- `0 if passed == n else 1`, after the division by `n` in the report.
    unfoldable pub exit_code : List (Outcome V) → Result RunError ℕ
    exit_code [] = err zero_division
    exit_code (o ∷ os) = ok (
        if nat_eq (length (keep_if (λ (r : Outcome V). is_pass r.verdict) (o ∷ os)))
          (length (o ∷ os))
        then 0
        else 1)

    -- `main`, up to the report: its exit code, the outcomes and the total cost.
    unfoldable pub main :
        (model : Text) → List Question → Step (Result RunError (ℕ × (List (Outcome V) × Total)))
    unfolding all_questions exit_code
    main model questions w =
        let (w1, r) = all_questions model questions (V.literal 0 1) w in
        (w1, r >>= λ (results, total). exit_code results >>= λ code. ok (code, (results, total)))
