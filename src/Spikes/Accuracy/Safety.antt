-- ===== src/Spikes/Accuracy/Safety.antt =====
-- What a run of run_spike.py hands to the database.
use chat_chart.Base.{inl, inr, Option, none, some, List, [], ◌∷◌, Result, ok, err, Text, Bool-cases}
use chat_chart.Spikes.Accuracy.Run.{returned, replied}
use chat_chart.Spikes.Service.{Reply, no_object, fields}
use chat_chart.Spikes.Service.{Answer, World}
use chat_chart.Spikes.Service.Laws.{run_statement-keeps, go_on-keeps}
use chat_chart.Spikes.Accuracy.Run.{
  sqlite_error, Expect, all_questions, expecting, run_sql, exec_sql, main, one_question, Question,
  Source, answered, result, is_sql, offline, api, clarify, refuse, with_cost, with_file, with_reply,
}
use chat_chart.Spikes.Sql.{Characters}
use chat_chart.Spikes.Rows.{Values, Usage, RunError}
use chat_chart.Spikes.Seed.{Tables}
use chat_chart.Spikes.Accuracy.Guards.{IsSafe, guard-IsSafe}
use chat_chart.Spikes.Accuracy.{guard, ExpectedFunction}

module _ (C : Characters) (V : Values) (t : Tables) (W : World V) where
  module _ (P : W.State → Type 0)
      (query_keeps : (s : Text) (w : W.State) → IsSafe C s → P w → P (W.query s w).0)
      (ask_keeps : (text : Text) (w : W.State) → P w → P (W.ask text w).0) where
    exec_sql-keeps : (sql : Text) (w : W.State) → P w → P (exec_sql C V t W sql w).0
    unfolding exec_sql
    exec_sql-keeps sql w p =
        run_statement-keeps W sqlite_error returned (IsSafe C) P query_keeps (guard C sql) w
          (λ s e. guard-IsSafe C sql e) p

    run_sql-keeps :
        (q : Question) (fn : ExpectedFunction) (kind : Text) (u : Option Usage) (sql : Option Text)
        (w : W.State)
        → P w
        → P (run_sql C V t W q fn kind u sql w).0
    unfolding run_sql
    run_sql-keeps q fn kind u none w p = p
    run_sql-keeps q fn kind u (some sql) w p = exec_sql-keeps sql w p

    expecting-keeps :
        (x : Expect) (q : Question) (a : Answer) (u : Option Usage) (w : W.State)
        → P w
        → P (expecting C V t W x q a u w).0
    unfolding expecting
    expecting-keeps clarify q a u w p = p
    expecting-keeps refuse q a u w p = p
    expecting-keeps (result fn kind) q a u w p = elim (Bool-cases (is_sql a.action)) [
      | inl e ↦ rw e (run_sql-keeps q fn kind u a.sql w p)
      | inr e ↦ rw e p
    ]

    answered-keeps :
        (q : Question) (a : Answer) (u : Option Usage) (w : W.State)
        → P w
        → P (answered C V t W q a u w).0
    unfolding answered
    answered-keeps q a u w p = expecting-keeps q.expect q a u w p

    replied-keeps :
        (q : Question) (a : Reply) (u : Option Usage) (w : W.State)
        → P w
        → P (replied C V t W q a u w).0
    unfolding replied
    replied-keeps q no_object u w p = p
    replied-keeps q (fields a) u w p = answered-keeps q a u w p

    with_file-keeps :
        (o : Option Reply) (q : Question) (total : V.floats.Float) (w : W.State)
        → P w
        → P (with_file C V t W o q total w).0
    unfolding with_file
    with_file-keeps none q total w p = p
    with_file-keeps (some a) q total w p = replied-keeps q a none w p

    with_cost-keeps :
        (cost : Result RunError V.floats.Float) (a : Reply) (u : Usage) (q : Question)
        (total : V.floats.Float) (w : W.State)
        → P w
        → P (with_cost C V t W cost a u q total w).0
    unfolding with_cost
    with_cost-keeps (err e) a u q total w p = p
    with_cost-keeps (ok cost) a u q total w p = replied-keeps q a (some u) w p

    with_reply-keeps :
        (model : Text) (reply : Result Text (Reply × Usage)) (q : Question) (total : V.floats.Float)
        (w : W.State)
        → P w
        → P (with_reply C V t W model reply q total w).0
    unfolding with_reply
    with_reply-keeps model (err e) q total w p = p
    with_reply-keeps model (ok (a, u)) q total w p = with_cost-keeps _ a u q total w p

    one_question-keeps :
        (source : Source) (q : Question) (total : V.floats.Float) (w : W.State)
        → P w
        → P (one_question C V t W source q total w).0
    unfolding one_question
    one_question-keeps (offline answers) q total w p = with_file-keeps (answers q.id) q total w p
    one_question-keeps (api model) q total w p =
        with_reply-keeps model (W.ask q.text w).1 q total (W.ask q.text w).0 (ask_keeps q.text w p)

    all_questions-keeps :
        (source : Source) (qs : List Question) (total : V.floats.Float) (w : W.State)
        → P w
        → P (all_questions C V t W source qs total w).0
    unfolding all_questions
    all_questions-keeps source [] total w p = p
    all_questions-keeps source (q ∷ qs) total w p =
        let kept = one_question-keeps source q total w p in
        go_on-keeps P (one_question C V t W source q total w).1 _ _
          (λ total1. all_questions-keeps source qs total1 _ kept) kept

    -- If every statement that passes the guards keeps a property of the database, and every call of the model
    -- does, then every run keeps it, also one that an exception ends: no other statement reaches the database.
    pub main-keeps :
        (source : Source) (qs : List Question) (w : W.State) → P w → P (main C V t W source qs w).0
    unfolding main
    main-keeps source qs w p = all_questions-keeps source qs (V.literal 0 1) w p
