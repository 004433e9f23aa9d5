-- ===== src/Spikes/Accuracy/ExitCode.antt =====
-- The outcomes of a run of run_spike.py, one for each question, and what its exit code says of them.
use chat_chart.Base.{
  ℕ, ◌≤◌, ◌≡◌, refl, sym, ap, subst, ◌↔◌, Bool, true, false, not, ◌||◌, Option, none, some, List,
  [], ◌∷◌, arith, Result, ok, err, if◌then◌else◌, keep_if, length, all, ok-injective, Text, map,
  >>=-eq-ok, rethrow,
}
use chat_chart.Spikes.Accuracy.Run.{Failure, returned, escaped, replied}
use chat_chart.Spikes.Service.{Reply, no_object, fields}
use chat_chart.Spikes.Service.{Answer, World}
use chat_chart.Spikes.Service.Laws.{go_on-ok}
use chat_chart.Spikes.Sql.{Characters}
use chat_chart.Spikes.Rows.{Values, RunError, Usage, in_expected, cost_jpy}
use chat_chart.Spikes.Accuracy.Run.{
  Verdict, Outcome, is_pass, main, settled, answered, run_sql, one_question, is_skip, all_questions,
  Question, expecting, pass, Source, with_file, exit_code, with_total, fail, with_reply, with_cost,
  error, exec_sql, Expect, offline, skip, api, result, is_sql, prices, outcome, expected_sql,
  clarify, refuse,
}
use chat_chart.Spikes.Seed.{Tables}
use chat_chart.Spikes.Accuracy.{ExpectedFunction, want, compare}

module _ (V : Values) where
  abbrev pub is_fine : Outcome V → Bool
  is_fine o = is_pass o.verdict || is_skip o.verdict

  passed_le : (v : Verdict) → is_pass v ≡ true → is_skip v ≡ false
  passed_le pass h = refl
  passed_le fail h = cc
  passed_le error h = cc
  passed_le skip h = cc

  abbrev passed : List (Outcome V) → ℕ
  passed os = length (keep_if (λ (o : Outcome V). is_pass o.verdict) os)

  abbrev judged : List (Outcome V) → ℕ
  judged os = length (keep_if (λ (o : Outcome V). not (is_skip o.verdict)) os)

  passed-le-judged : (os : List (Outcome V)) → passed os ≤ judged os
  unfolding keep_if
  passed-le-judged [] = omega arith
  passed-le-judged (o ∷ os) = ground (arith, passed-le-judged os, passed_le o.verdict)

  all_fine : (os : List (Outcome V)) → (passed os ≡ judged os) ↔ (all is_fine os ≡ true)
  unfolding keep_if
  all_fine [] = ground arith
  all_fine (o ∷ os) = ground (arith, passed-le-judged os, all_fine os, passed_le o.verdict)

module _ (C : Characters) (V : Values) (t : Tables) (W : World V) where
  abbrev Of : Question → Result RunError (Outcome V) → Type 0
  Of q r = (o : Outcome V) → r ≡ ok o → o.question ≡ q

  ok-Of : {o : Outcome V} → Of o.question (ok o)
  ok-Of p e = ap (λ x. x.question) (sym (ok-injective e))

  err-Of : {q : Question} {e : RunError} → Of q (err e)
  err-Of p h = cc

  settled-Of :
      (q : Question) (fn : ExpectedFunction) (kind : Text) (u : Option Usage)
      (rows : Result Failure (List (List V.Value)))
      → Of q (settled C V t W q fn kind u rows)
  unfolding settled
  settled-Of q fn kind u (err (returned e)) = ok-Of
  settled-Of q fn kind u (err escaped) = err-Of
  settled-Of q fn kind u (ok rows) = λ o e.
      let (wanted, _, e1) = >>=-eq-ok (rethrow in_expected (want V t fn)) _ e in
      let (same, _, e2) = >>=-eq-ok (compare V kind rows wanted) _ e1 in ok-Of o e2

  run_sql-Of :
      (q : Question) (fn : ExpectedFunction) (kind : Text) (u : Option Usage) (found : Option Text)
      (w : W.State)
      → Of q (run_sql C V t W q fn kind u found w).1
  unfolding run_sql
  run_sql-Of q fn kind u none w = err-Of
  run_sql-Of q fn kind u (some sql) w = settled-Of q fn kind u (exec_sql C V t W sql w).1

  if-Of :
      (q : Question) (b : Bool) (x y : W.State × Result RunError (Outcome V))
      → Of q x.1
      → Of q y.1
      → Of q (if b then x else y).1
  if-Of q true x y f g = f
  if-Of q false x y f g = g

  answered-Of :
      (q : Question) (a : Answer) (u : Option Usage) (w : W.State)
      → Of q (answered C V t W q a u w).1
  unfolding answered expecting
  answered-Of q a u w = by_expect q.expect
    where
      by_expect : (x : Expect) → Of q (expecting C V t W x q a u w).1
      by_expect clarify = ok-Of
      by_expect refuse = ok-Of
      by_expect (result fn kind) =
          if-Of q (is_sql a.action) (run_sql C V t W q fn kind u a.sql w)
            (w, ok (outcome C V t q fail expected_sql u)) (run_sql-Of q fn kind u a.sql w) ok-Of

  replied-Of :
      (q : Question) (a : Reply) (u : Option Usage) (w : W.State) → Of q (replied C V t W q a u w).1
  unfolding replied
  replied-Of q no_object u w = err-Of
  replied-Of q (fields a) u w = answered-Of q a u w

  abbrev OfBoth : Question → Result RunError (Outcome V × V.floats.Float) → Type 0
  OfBoth q r = (o : Outcome V) (total : V.floats.Float) → r ≡ ok (o, total) → o.question ≡ q

  with_total-OfBoth :
      (q : Question) (total : V.floats.Float) (r : Result RunError (Outcome V))
      → Of q r
      → OfBoth q (with_total C V t W total r)
  with_total-OfBoth q total (err e) f = λ o n h. cc
  with_total-OfBoth q total (ok p) f = λ o n h. f o (ap ok (ap (λ x. x.0) (ok-injective h)))

  one_question-OfBoth :
      (source : Source) (q : Question) (total : V.floats.Float) (w : W.State)
      → OfBoth q (one_question C V t W source q total w).1
  unfolding one_question with_file with_reply with_cost
  one_question-OfBoth (offline answers) q total w = from_file (answers q.id)
    where
      from_file : (o : Option Reply) → OfBoth q (with_file C V t W o q total w).1
      from_file none = λ o n h. ap (λ x. x.0.question) (sym (ok-injective h))
      from_file (some a) = with_total-OfBoth q total _ (replied-Of q a none w)
  one_question-OfBoth (api model) q total w = from_reply (W.ask q.text w).1 (W.ask q.text w).0
    where
      at_cost :
          (cost : Result RunError V.floats.Float) (a : Reply) (u : Usage) (w1 : W.State)
          → OfBoth q (with_cost C V t W cost a u q total w1).1
      at_cost (err e) a u w1 = λ o n h. cc
      at_cost (ok cost) a u w1 =
          with_total-OfBoth q (V.plus total cost) _ (replied-Of q a (some u) w1)

      from_reply :
          (reply : Result Text (Reply × Usage)) (w1 : W.State)
          → OfBoth q (with_reply C V t W model reply q total w1).1
      from_reply (err e) w1 = λ o n h. ap (λ x. x.0.question) (sym (ok-injective h))
      from_reply (ok (a, u)) w1 = at_cost (cost_jpy V (prices C V t model) u) a u w1

  all_questions-questions :
      (source : Source) (qs : List Question) (total : V.floats.Float) (w : W.State)
      {os : List (Outcome V)} {total1 : V.floats.Float}
      → (all_questions C V t W source qs total w).1 ≡ ok (os, total1)
      → map (λ (o : Outcome V). o.question) os ≡ qs
  unfolding all_questions
  all_questions-questions source [] total w h =
      ap (λ x. map (λ (o : Outcome V). o.question) x.0) (sym (ok-injective h))
  all_questions-questions source (q ∷ qs) total w {os} {total1} h =
      let (o, n, more, e, f, same) = go_on-ok (one_question C V t W source q total w).1 _ _ h in
      subst (λ x. map (λ (o : Outcome V). o.question) x ≡ q ∷ qs) same
        (rw (one_question-OfBoth source q total w o n e, all_questions-questions source qs n _ f)
          refl)

  -- A run that ends without an exception has one outcome for each question, in order, and exits with 0 exactly
  -- when each of them is PASS or SKIP.
  pub main-exit_code :
      (source : Source) (qs : List Question) (w : W.State) {code : ℕ} {os : List (Outcome V)}
      {total : V.floats.Float}
      → (main C V t W source qs w).1 ≡ ok (code, (os, total))
      → (map (λ (o : Outcome V). o.question) os ≡ qs) × ((code ≡ 0) ↔ (all (is_fine V) os ≡ true))
  unfolding main exit_code
  main-exit_code source qs w {code} {os} {total} h =
      let ((results, sum), e, f) =
        >>=-eq-ok (all_questions C V t W source qs (V.literal 0 1) w).1 _ h in
      let same = ok-injective f in
      let results_same = ap (λ x. x.1.0) same in
      (
        all_questions-questions source qs (V.literal 0 1) w (
            subst (λ x. (all_questions C V t W source qs (V.literal 0 1) w).1 ≡ ok (x, sum))
              results_same e),
        subst (λ n. (n ≡ 0) ↔ (all (is_fine V) os ≡ true))
            (subst (λ x. exit_code C V t W x ≡ code) results_same (ap (λ x. x.0) same)) code_fine,
      )
    where
      code_fine : (exit_code C V t W os ≡ 0) ↔ (all (is_fine V) os ≡ true)
      code_fine = ground (arith, all_fine V os)
