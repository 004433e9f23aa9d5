-- ===== src/Spikes/Service.antt =====
-- The database and the language model behind run_spike.py and run_thelook.py, what runs on them, and the loop over
-- the questions.
pub mod Laws
use chat_chart.Base.{
  ℕ, zero, suc, ◌+◌, ◌-◌, ◌≤◌, ◌<◌, ◌≡◌, refl, sym, ap, ◌∙◌, subst, ◌≢◌, ◌↔◌, ◌⊎◌, inl, inr, ite,
  Bool, true, false, not, ◌&&◌, ◌||◌, Option, none, some, List, [], ◌∷◌, ◌++◌, arith, Result, ok,
  err, ◌>>=◌, ◌>>◌, if◌then◌else◌, ◌==◌, Text, Value, rethrow,
}
use chat_chart.Spikes.Rows.{Values, RunError, Usage}

-- A JSON object that the model returns, or that stands in the file of answers: its fields, where they are there and
-- are text.
pub record Answer : Type 0 where
  pub action : Option Text
  pub sql : Option Text

-- What `json.loads` makes of an answer, where only an object has the method `get`.
pub data Reply : Type 0 where
  no_object : Reply
  fields : Answer → Reply

-- An exception of the database's driver: its text, and whether it is an error of the database (`sqlite3.Error`).
pub record Raised : Type 0 where
  pub text : Text
  pub in_database : Bool

-- The database, opened read-only, and the language model. A query may raise, and
-- an exception of the client is its message.
pub record World (V : Values) : Type 1 where
  pub State : Type 0
  pub query : Text → State → State × Result Raised (List (List V.Value))
  pub ask : Text → State → State × Result Text (Reply × Usage)

-- The statement that the guards let through runs. `told` is what becomes of an exception, and `rejected` of the
-- message of a guard.
unfoldable pub run_statement :
    {V : Values} {E : Type 0} (W : World V)
    → (told : Raised → E) → (rejected : Text → E) → Result Text Text
    → W.State
    → W.State × Result E (List (List V.Value))
run_statement W told rejected (err reason) w = (w, err (rejected reason))
run_statement W told rejected (ok s) w = let (w1, rows) = W.query s w in (w1, rethrow told rows)

module _ {State : Type 0} {Outcome : Type 0} {Total : Type 0} where
  -- The loop goes on with the other questions, unless an exception ends it.
  unfoldable pub go_on :
      Result RunError (Outcome × Total)
      → (Total → State × Result RunError (List Outcome × Total))
      → State
      → State × Result RunError (List Outcome × Total)
  go_on (err e) rest w = (w, err e)
  go_on (ok (o, total)) rest w =
      let (w1, more) = rest total in (w1, more >>= λ (os, total1). ok (o ∷ os, total1))
