-- ===== src/Tests/Warehouse.antt =====
-- Runs of run_thelook.py on a warehouse that logs its statements and always answers with the row 1.
use chat_chart.Base.{◌≡◌, refl, ◌↔◌, some, map, List, [], ◌∷◌, ok, err, Text, All, codes, text_dec}
use chat_chart.Spikes.Service.{fields}
use chat_chart.Spikes.Service.{Answer, World}
use chat_chart.Spikes.Thelook.{references, Reference, guard}
use chat_chart.Spikes.Thelook.Run.{Question, main, expecting, result}
use chat_chart.Spikes.Thelook.Safety.{IsSafe, main-keeps_queries}
use chat_chart.Spikes.Thelook.Verdicts.{Passes, IsRight, expecting-IsRight}
use chat_chart.Spikes.Rows.{Usage}
use chat_chart.Tests.Statements.{ascii}
use chat_chart.Tests.Runs.{plain_values}

references_test :
    map (λ (r : Reference). r.project) (references 0 (codes "from `a-b.c.d`, x.y join e.f.g.h"))
    ≡ codes "a-b" ∷ codes "e" ∷ []
unfolding references
references_test = refl

foreign_test :
    guard ascii (codes "select 1 from bigquery-public-data.thelook_ecommerce.a, `b.c.d`")
    ≡ err (codes "rejected: foreign table ref `b.c.d`")
unfolding guard text_dec
foreign_test = refl

abbrev gold : Text
gold = codes "SELECT 1 FROM `bigquery-public-data.thelook_ecommerce.orders`"

abbrev counting : Answer
counting = record { action = some (codes "sql"); sql = some gold }

abbrev one_token : Usage
one_token = record { input_tokens = 1; output_tokens = 1; cache_read = 0; cache_write = 0 }

abbrev logging : World plain_values
logging = record {
  State = List Text;
  query = λ s w. (s ∷ w, ok ((1 ∷ []) ∷ []));
  ask = λ text w. (w, ok (fields counting, one_token));
}

abbrev orders_question : Question
orders_question = record {
  id = codes "T2";
  category = codes "simple";
  text = codes "orders this month";
  expect = result (codes "scalar") gold;
}

abbrev model : Text
model = codes "gemini-3.5-flash"

-- All logged statements are safe after the run.
main-keeps_queries_example :
    All (IsSafe ascii) (main ascii plain_values logging model (orders_question ∷ []) []).0
main-keeps_queries_example =
    main-keeps_queries ascii plain_values logging (All (IsSafe ascii)) (λ s w safe p. (safe, p))
      (λ text w p. p) model (orders_question ∷ []) [] tt

expecting-IsRight_example :
    Passes ascii plain_values logging
      (expecting ascii plain_values logging orders_question.expect orders_question counting
        one_token []).1
    ↔ IsRight ascii plain_values logging orders_question.expect counting []
expecting-IsRight_example =
    expecting-IsRight ascii plain_values logging orders_question.expect orders_question counting
      one_token []
