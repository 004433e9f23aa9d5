-- ===== src/Spikes/Accuracy/Verdicts.antt =====
-- What a run of run_spike.py says: when an answer passes, and what the exit code means.
use chat_chart.Base.{
  ◌≡◌, refl, sym, ap, ◌∙◌, subst, ◌↔◌, Bool, true, false, Option, none, some, List, Result, ok, err,
  if◌then◌else◌, ok-injective, Text, rethrow, >>=-eq-ok, some-injective, rethrow-eq-ok,
}
use chat_chart.Spikes.Accuracy.Run.{Failure, returned, escaped}
use chat_chart.Spikes.Service.{Answer, World}
use chat_chart.Spikes.Service.Laws.{run_statement-ok, statement_rows}
use chat_chart.Spikes.Accuracy.Run.{
  sqlite_error, verdict_of, Outcome, Expect, settled, Question, declines, result, is_sql, clarify,
  refuse, expecting, is_pass, answered, outcome, pass, compared, Detail, fail, run_sql,
  expected_sql, exec_sql,
}
use chat_chart.Spikes.Sql.{Characters}
use chat_chart.Spikes.Rows.{Values, RunError, Usage, in_expected}
use chat_chart.Spikes.Seed.{Tables}
use chat_chart.Spikes.Accuracy.{ExpectedFunction, Want, guard, want, compare}

verdict_of-pass : (b : Bool) → is_pass (verdict_of b) ≡ true → b ≡ true
verdict_of-pass true h = refl
verdict_of-pass false h = cc

module _ (C : Characters) (V : Values) (t : Tables) (W : World V) where
  -- The statement passes the guards, and the rows of the database compare as equal to the expected answer.
  abbrev IsRightSql : ExpectedFunction → Text → Option Text → W.State → Type 0
  IsRightSql fn kind found w =
      (sql : Text) × (s : Text) × (rows : List (List V.Value)) × (wanted : Want V) × (found
        ≡ some sql)
      × (guard C sql ≡ ok s)
      × ((W.query s w).1 ≡ ok rows)
      × (want V t fn ≡ ok wanted)
      × (compare V kind rows wanted ≡ ok true)

  -- What the question expects of the answer when the database is in the state `w`.
  abbrev pub IsRight : Expect → Answer → W.State → Type 0
  IsRight clarify a w = declines a.action ≡ true
  IsRight refuse a w = declines a.action ≡ true
  IsRight (result fn kind) a w = (is_sql a.action ≡ true) × IsRightSql fn kind a.sql w

  -- The answer is judged, and the verdict is PASS.
  abbrev pub Passes : Result RunError (Outcome V) → Type 0
  Passes r = (o : Outcome V) × (r ≡ ok o) × (is_pass o.verdict ≡ true)

  Passes-not_err : {e : RunError} → ¬ Passes (err e)
  Passes-not_err (o, e, h) = cc

  Passes-ok : {o : Outcome V} → Passes (ok o) → is_pass o.verdict ≡ true
  Passes-ok (p, e, h) = subst (λ x. is_pass x.verdict ≡ true) (sym (ok-injective e)) h

  Passes-not_fail :
      {q : Question} {d : Detail V} {u : Option Usage} → ¬ Passes (ok (outcome C V t q fail d u))
  Passes-not_fail h = not_pass (Passes-ok h)
    where
      not_pass : ¬ (is_pass fail ≡ true)
      not_pass e = cc

  rows_right :
      (q : Question) (fn : ExpectedFunction) (kind : Text) (u : Option Usage)
      (rows : Result Failure (List (List V.Value)))
      → Passes (settled C V t W q fn kind u rows)
      → (got : List (List V.Value)) × (wanted : Want V) × (rows ≡ ok got)
        × (want V t fn ≡ ok wanted)
        × (compare V kind got wanted ≡ ok true)
  unfolding settled
  rows_right q fn kind u (err (returned e)) h = absurd (Passes-not_fail h)
  rows_right q fn kind u (err escaped) h = absurd (Passes-not_err h)
  rows_right q fn kind u (ok rows) (o, e, h) =
      let (wanted, e1, e2) = >>=-eq-ok (rethrow in_expected (want V t fn)) _ e in
      let (same, e3, e4) = >>=-eq-ok (compare V kind rows wanted) _ e2 in
      let passed =
        verdict_of-pass same (subst (λ x. is_pass x.verdict ≡ true) (sym (ok-injective e4)) h) in
      (rows, wanted, refl, rethrow-eq-ok in_expected (want V t fn) e1, e3 ∙ ap ok passed)

  right_rows :
      (q : Question) (fn : ExpectedFunction) (kind : Text) (u : Option Usage)
      (got : List (List V.Value)) (wanted : Want V)
      → want V t fn ≡ ok wanted
      → compare V kind got wanted ≡ ok true
      → Passes (settled C V t W q fn kind u (ok got))
  unfolding settled
  right_rows q fn kind u got wanted e f =
      (outcome C V t q pass (compared got wanted) u, rw (e, f) refl, refl)

  run_sql-IsRightSql :
      (q : Question) (fn : ExpectedFunction) (kind : Text) (u : Option Usage) (found : Option Text)
      (w : W.State)
      → Passes (run_sql C V t W q fn kind u found w).1
      → IsRightSql fn kind found w
  unfolding run_sql exec_sql
  run_sql-IsRightSql q fn kind u none w h = absurd (Passes-not_err h)
  run_sql-IsRightSql q fn kind u (some sql) w h =
      let (rows, wanted, e, f, g) = rows_right q fn kind u (exec_sql C V t W sql w).1 h in
      let (s, e1, e2) = run_statement-ok W sqlite_error returned (guard C sql) w e in
      (sql, s, rows, wanted, refl, e1, e2, f, g)

  IsRightSql-run_sql :
      (q : Question) (fn : ExpectedFunction) (kind : Text) (u : Option Usage) (found : Option Text)
      (w : W.State)
      → IsRightSql fn kind found w
      → Passes (run_sql C V t W q fn kind u found w).1
  unfolding run_sql exec_sql
  IsRightSql-run_sql q fn kind u none w (sql, s, rows, wanted, e, f, g, h, k) = cc
  IsRightSql-run_sql q fn kind u (some sql0) w (sql, s, rows, wanted, e, f, g, h, k) =
      subst (λ r. Passes (settled C V t W q fn kind u r))
        (sym (statement_rows W sqlite_error returned s w (ap (guard C) (some-injective e) ∙ f) g))
        (right_rows q fn kind u rows wanted h k)

  if_true_cases :
      (b : Bool) (x y : W.State × Result RunError (Outcome V))
      → ¬ Passes y.1
      → Passes (if b then x else y).1
      → (b ≡ true) × Passes x.1
  if_true_cases true x y f h = (refl, h)
  if_true_cases false x y f h = absurd (f h)

  expecting-IsRight :
      (x : Expect) (q : Question) (a : Answer) (u : Option Usage) (w : W.State)
      → Passes (expecting C V t W x q a u w).1
      → IsRight x a w
  unfolding expecting
  expecting-IsRight clarify q a u w h = verdict_of-pass (declines a.action) (Passes-ok h)
  expecting-IsRight refuse q a u w h = verdict_of-pass (declines a.action) (Passes-ok h)
  expecting-IsRight (result fn kind) q a u w h =
      let (e, f) =
        if_true_cases (is_sql a.action) _ (w, ok (outcome C V t q fail expected_sql u))
          Passes-not_fail h in
      (e, run_sql-IsRightSql q fn kind u a.sql w f)

  IsRight-expecting :
      (x : Expect) (q : Question) (a : Answer) (u : Option Usage) (w : W.State)
      → IsRight x a w
      → Passes (expecting C V t W x q a u w).1
  unfolding expecting
  IsRight-expecting clarify q a u w h = (_, refl, rw h refl)
  IsRight-expecting refuse q a u w h = (_, refl, rw h refl)
  IsRight-expecting (result fn kind) q a u w (e, h) =
      subst
        (λ b.
          Passes
            (if b
              then run_sql C V t W q fn kind u a.sql w
              else (w, ok (outcome C V t q fail expected_sql u))).1)
        (sym e) (IsRightSql-run_sql q fn kind u a.sql w h)

  -- An answer gets the verdict PASS exactly when it declines a question that is to be declined, or when it has a
  -- statement that passes the guards and runs, whose rows compare as equal to the expected answer.
  pub answered-IsRight :
      (q : Question) (a : Answer) (u : Option Usage) (w : W.State)
      → Passes (answered C V t W q a u w).1 ↔ IsRight q.expect a w
  unfolding answered
  answered-IsRight q a u w =
      (expecting-IsRight q.expect q a u w, IsRight-expecting q.expect q a u w)
