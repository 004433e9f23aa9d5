-- ===== src/Spikes/Thelook/Verdicts.antt =====
-- When an answer of run_thelook.py passes.
use chat_chart.Base.{
  ◌≡◌, refl, sym, ap, ◌∙◌, subst, ◌↔◌, Bool, true, false, Option, none, some, List, Result, ok, err,
  if◌then◌else◌, Text, ok-injective, codes, some-injective, >>=-eq-ok,
}
use chat_chart.Spikes.Service.{Answer, World}
use chat_chart.Spikes.Service.Laws.{run_statement-ok, statement_rows, statement_state}
use chat_chart.Spikes.Thelook.Run.{
  bq_error, is_pass, verdict_of, Outcome, run_sql, expecting, settled, Expect, against_gold,
  exec_bq, Question, acts, result, outcome, fail, clarify, pass, compared, expected_sql,
}
use chat_chart.Spikes.Sql.{Characters}
use chat_chart.Spikes.Rows.{Values, RunError, Usage}
use chat_chart.Spikes.Thelook.{guard, compare}

verdict_of-pass : (b : Bool) → is_pass (verdict_of b) ≡ true → b ≡ true
verdict_of-pass true h = refl
verdict_of-pass false h = cc

module _ (C : Characters) (V : Values) (W : World V) where
  -- Both statements pass the guards, the gold one runs after the other, and their rows compare as equal.
  abbrev IsRightSql : (kind gold_sql : Text) → Option Text → W.State → Type 0
  IsRightSql kind gold_sql found w =
      (sql : Text) × (s : Text) × (gold : Text) × (got : List (List V.Value)) × (wanted : List
        (List V.Value))
      × (found ≡ some sql)
      × (guard C sql ≡ ok s)
      × ((W.query s w).1 ≡ ok got)
      × (guard C gold_sql ≡ ok gold)
      × ((W.query gold (W.query s w).0).1 ≡ ok wanted)
      × (compare V kind got wanted ≡ ok true)

  -- What the question expects of the answer when BigQuery is in the state `w`.
  abbrev pub IsRight : Expect → Answer → W.State → Type 0
  IsRight clarify a w = acts (codes "clarify") a.action ≡ true
  IsRight (result kind gold_sql) a w =
      (acts (codes "sql") a.action ≡ true) × IsRightSql kind gold_sql a.sql w

  -- The answer is judged, and the verdict is PASS.
  abbrev pub Passes : Result RunError (Outcome V) → Type 0
  Passes r = (o : Outcome V) × (r ≡ ok o) × (is_pass o.verdict ≡ true)

  Passes-not_err : {e : RunError} → ¬ Passes (err e)
  Passes-not_err (o, e, h) = cc

  Passes-ok : {o : Outcome V} → Passes (ok o) → is_pass o.verdict ≡ true
  Passes-ok (p, e, h) = subst (λ x. is_pass x.verdict ≡ true) (sym (ok-injective e)) h

  Passes-not_other : {o : Outcome V} → is_pass o.verdict ≡ false → ¬ Passes (ok o)
  Passes-not_other e h = differ (sym (Passes-ok h) ∙ e)
    where
      differ : ¬ (true ≡ false)
      differ k = cc

  settled-right :
      (q : Question) (kind : Text) (u : Usage) (got : List (List V.Value))
      (rows : Result Text (List (List V.Value)))
      → Passes (settled C V W q kind u got rows)
      → (wanted : List (List V.Value)) × (rows ≡ ok wanted) × (compare V kind got wanted ≡ ok true)
  unfolding settled
  settled-right q kind u got (err e) h = absurd (Passes-not_other refl h)
  settled-right q kind u got (ok wanted) (o, e, h) =
      let (same, e1, e2) = >>=-eq-ok (compare V kind got wanted) _ e in
      let passed =
        verdict_of-pass same (subst (λ x. is_pass x.verdict ≡ true) (sym (ok-injective e2)) h) in
      (wanted, refl, e1 ∙ ap ok passed)

  right-settled :
      (q : Question) (kind : Text) (u : Usage) (got wanted : List (List V.Value))
      → compare V kind got wanted ≡ ok true
      → Passes (settled C V W q kind u got (ok wanted))
  unfolding settled
  right-settled q kind u got wanted e =
      (outcome C V q pass (compared got wanted) (some u), rw e refl, refl)

  against_gold-right :
      (q : Question) (kind gold_sql : Text) (u : Usage) (got : Result Text (List (List V.Value)))
      (w : W.State)
      → Passes (against_gold C V W q kind gold_sql u got w).1
      → (rows : List (List V.Value)) × (gold : Text) × (wanted : List (List V.Value)) × (got
          ≡ ok rows)
        × (guard C gold_sql ≡ ok gold)
        × ((W.query gold w).1 ≡ ok wanted)
        × (compare V kind rows wanted ≡ ok true)
  unfolding against_gold exec_bq
  against_gold-right q kind gold_sql u (err e) w h = absurd (Passes-not_other refl h)
  against_gold-right q kind gold_sql u (ok got) w h =
      let (wanted, e, f) = settled-right q kind u got (exec_bq C V W gold_sql w).1 h in
      let (gold, g, k) = run_statement-ok W bq_error (λ e. e) (guard C gold_sql) w e in
      (got, gold, wanted, refl, g, k, f)

  run_sql-IsRightSql :
      (q : Question) (kind gold_sql : Text) (u : Usage) (found : Option Text) (w : W.State)
      → Passes (run_sql C V W q kind gold_sql u found w).1
      → IsRightSql kind gold_sql found w
  unfolding run_sql exec_bq
  run_sql-IsRightSql q kind gold_sql u none w h = absurd (Passes-not_err h)
  run_sql-IsRightSql q kind gold_sql u (some sql) w h =
      let (got, gold, wanted, e, f, g, k) = against_gold-right q kind gold_sql u _ _ h in
      let (s, e1, e2) = run_statement-ok W bq_error (λ e. e) (guard C sql) w e in
      (
        sql,
        s,
        gold,
        got,
        wanted,
        refl,
        e1,
        e2,
        f,
        subst (λ v. (W.query gold v).1 ≡ ok wanted) (statement_state W bq_error (λ e. e) s w e1) g,
        k,
      )

  right-against_gold :
      (q : Question) (kind gold_sql : Text) (u : Usage) {got : Result Text (List (List V.Value))}
      (w : W.State) {rows wanted : List (List V.Value)} {gold : Text}
      → got ≡ ok rows
      → guard C gold_sql ≡ ok gold
      → (W.query gold w).1 ≡ ok wanted
      → compare V kind rows wanted ≡ ok true
      → Passes (against_gold C V W q kind gold_sql u got w).1
  unfolding against_gold exec_bq
  right-against_gold q kind gold_sql u w {rows} {wanted} {gold} e f g h =
      subst (λ r. Passes (against_gold C V W q kind gold_sql u r w).1) (sym e)
        (subst (λ r. Passes (settled C V W q kind u rows r))
          (sym (statement_rows W bq_error (λ e. e) gold w f g))
          (right-settled q kind u rows wanted h))

  IsRightSql-run_sql :
      (q : Question) (kind gold_sql : Text) (u : Usage) (found : Option Text) (w : W.State)
      → IsRightSql kind gold_sql found w
      → Passes (run_sql C V W q kind gold_sql u found w).1
  unfolding run_sql exec_bq
  IsRightSql-run_sql q kind gold_sql u none w (sql, s, gold, got, wanted, e, f, g, h, k, l) = cc
  IsRightSql-run_sql q kind gold_sql u (some sql0) w (sql, s, gold, got, wanted, e, f, g, h, k, l) =
      let passed = ap (guard C) (some-injective e) ∙ f in
      right-against_gold q kind gold_sql u _ (statement_rows W bq_error (λ e. e) s w passed g) h
        (subst (λ v. (W.query gold v).1 ≡ ok wanted)
          (sym (statement_state W bq_error (λ e. e) s w passed)) k)
        l

  if_true_cases :
      (b : Bool) (x y : W.State × Result RunError (Outcome V))
      → ¬ Passes y.1
      → Passes (if b then x else y).1
      → (b ≡ true) × Passes x.1
  if_true_cases true x y f h = (refl, h)
  if_true_cases false x y f h = absurd (f h)

  expecting-IsRight-only :
      (x : Expect) (q : Question) (a : Answer) (u : Usage) (w : W.State)
      → Passes (expecting C V W x q a u w).1
      → IsRight x a w
  unfolding expecting
  expecting-IsRight-only clarify q a u w h =
      verdict_of-pass (acts (codes "clarify") a.action) (Passes-ok h)
  expecting-IsRight-only (result kind gold_sql) q a u w h =
      let (e, f) =
        if_true_cases (acts (codes "sql") a.action) _
          (w, ok (outcome C V q fail expected_sql (some u))) (Passes-not_other refl) h in
      (e, run_sql-IsRightSql q kind gold_sql u a.sql w f)

  IsRight-expecting :
      (x : Expect) (q : Question) (a : Answer) (u : Usage) (w : W.State)
      → IsRight x a w
      → Passes (expecting C V W x q a u w).1
  unfolding expecting
  IsRight-expecting clarify q a u w h = (_, refl, rw h refl)
  IsRight-expecting (result kind gold_sql) q a u w (e, h) =
      subst
        (λ b.
          Passes
            (if b
              then run_sql C V W q kind gold_sql u a.sql w
              else (w, ok (outcome C V q fail expected_sql (some u)))).1)
        (sym e) (IsRightSql-run_sql q kind gold_sql u a.sql w h)

  -- An answer passes exactly when it asks back where a question is ambiguous, or when its statement and then the
  -- gold statement pass the guards and run, and their rows compare as equal.
  pub expecting-IsRight :
      (x : Expect) (q : Question) (a : Answer) (u : Usage) (w : W.State)
      → Passes (expecting C V W x q a u w).1 ↔ IsRight x a w
  expecting-IsRight x q a u w = (expecting-IsRight-only x q a u w, IsRight-expecting x q a u w)
