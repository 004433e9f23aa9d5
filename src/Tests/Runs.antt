-- ===== src/Tests/Runs.antt =====
-- Runs of run_spike.py on a database that logs its statements and always answers with the row 1.
use chat_chart.Base.{
  ℕ, ◌+◌, ◌≡◌, refl, ap, ◌↔◌, true, Option, none, some, List, [], ◌∷◌, ok, err, if◌then◌else◌, ◌==◌,
  Text, map, All, text_dec, ◌*◌, all, codes, length, nat_eq, keep_if, casefold,
}
use chat_chart.Spikes.Service.{Reply, fields}
use chat_chart.Spikes.Service.{Answer, World}
use chat_chart.Spikes.Accuracy.Run.{
  Question, Outcome, main, pass, fail, answered, offline, compared, action_given, result, refuse,
}
use chat_chart.Spikes.Accuracy.{q2, one}
use chat_chart.Spikes.Accuracy.Verdicts.{Passes, IsRight, answered-IsRight}
use chat_chart.Spikes.Accuracy.Guards.{IsSafe}
use chat_chart.Spikes.Accuracy.ExitCode.{is_fine, main-exit_code}
use chat_chart.Spikes.Accuracy.Safety.{main-keeps}
use chat_chart.Spikes.Seed.{Tables}
use chat_chart.Spikes.Expected.{order_count_this_month}
use chat_chart.Spikes.Groups.{index_by}
use chat_chart.Spikes.Rows.{Values}
use chat_chart.Tests.Statements.{ascii, allowed, allowed_statement}

-- Cells and floats are natural numbers.
abbrev pub plain_values : Values
plain_values = record {
  floats = record { Float = ℕ; ratio = λ m n. n; times_100 = λ x. 100 * x; round_1 = λ x. x };
  Value = ℕ;
  of_nat = λ n. n;
  of_text = length;
  of_float = λ x. x;
  float_in = λ n. none;
  is_number = λ n. true;
  to_float = λ n. ok n;
  round_to = λ n x. x;
  is_near = λ n x y. nat_eq x y;
  same = nat_eq;
  sorted_rows = λ rows. ok rows;
  literal = λ n places. n;
  plus = λ x y. x + y;
  times = λ x y. x * y;
  over = λ x y. x;
}

abbrev no_tables : Tables
no_tables = record { stores = []; products = []; orders = []; order_items = [] }

abbrev counting : Answer
counting = record { action = some (codes "sql"); sql = some allowed }

abbrev logging : World plain_values
logging = record {
  State = List Text;
  query = λ s w. (s ∷ w, ok ((1 ∷ []) ∷ []));
  ask = λ text w. (w, err (codes "no model"));
}

abbrev sales_question : Question
sales_question = record {
  id = codes "Q2";
  category = codes "simple";
  text = codes "orders this month";
  expect = result q2 (codes "scalar");
}

abbrev other_question : Question
other_question = record {
  id = codes "Q10";
  category = codes "tenant_safety";
  text = codes "sales of all tenants";
  expect = refuse;
}

-- Declines the question on all tenants, answers the other one by a statement.
abbrev from_file : Text → Option Reply
from_file id = some (
    fields (
      if id == codes "Q10"
      then record { action = some (codes "refuse"); sql = none }
      else counting))

abbrev questions : List Question
questions = sales_question ∷ other_question ∷ []

-- All logged statements are safe after the run.
main-keeps_example :
    All
      (IsSafe ascii)
      (main ascii plain_values no_tables logging (offline from_file) questions []).0
main-keeps_example =
    main-keeps ascii plain_values no_tables logging (All (IsSafe ascii)) (λ s w safe p. (safe, p))
      (λ text w p. p) (offline from_file) questions [] tt

answered-IsRight_example :
    Passes ascii plain_values no_tables logging
      (answered ascii plain_values no_tables logging sales_question counting none []).1
    ↔ IsRight ascii plain_values no_tables logging sales_question.expect counting []
answered-IsRight_example =
    answered-IsRight ascii plain_values no_tables logging sales_question counting none []

abbrev outcomes : List (Outcome plain_values)
outcomes =
    record {
      question = sales_question;
      verdict = fail;
      detail = compared ((1 ∷ []) ∷ []) (one 0);
      usage = none;
    }
    ∷ record { question = other_question; verdict = pass; detail = action_given; usage = none }
    ∷ []

run_test :
    main ascii plain_values no_tables logging (offline from_file) questions []
    ≡ (allowed_statement ∷ [], ok (1, (outcomes, 0)))
unfolding main text_dec casefold keep_if order_count_this_month index_by
run_test = refl

main-exit_code_example :
    (map (λ (o : Outcome plain_values). o.question) outcomes ≡ questions)
    × ((◌≡◌ {A = ℕ} 1 0) ↔ (all (is_fine plain_values) outcomes ≡ true))
main-exit_code_example =
    main-exit_code ascii plain_values no_tables logging (offline from_file) questions []
      (ap (λ r. r.1) run_test)
