-- ===== src/Spikes/Thelook/Safety.antt =====
-- What a run of run_thelook.py hands to BigQuery.
use chat_chart.Base.{
  ◌≡◌, refl, sym, ◌∙◌, subst, inl, inr, Bool, true, false, not, Option, none, some, List, [], ◌∷◌,
  ◌++◌, Result, ok, err, ◌>>◌, if◌then◌else◌, ◌==◌, Text, raise_if, ok-injective, all, codes,
  has_substring, keep_if, nat_eq, Bool-cases,
}
use chat_chart.Spikes.Thelook.Run.{replied}
use chat_chart.Spikes.Service.{Reply, no_object, fields}
use chat_chart.Spikes.Service.{Answer, World}
use chat_chart.Spikes.Service.Laws.{run_statement-keeps, go_on-keeps}
use chat_chart.Spikes.Thelook.Run.{
  bq_error, with_cost, with_reply, all_questions, against_gold, run_sql, expecting, main, exec_bq,
  Expect, Question, result, acts, clarify,
}
use chat_chart.Spikes.Sql.{Characters, statement_of, begins_with, without_quotes, has_word}
use chat_chart.Spikes.Thelook.{guard, check_references, Reference, dataset, forbidden, references}
use chat_chart.Spikes.Rows.{Values, RunError, Usage}
use chat_chart.Spikes.Sql.Words.{IsWordIn, has_word-IsWordIn}

-- What the guards demand of a statement: it begins with SELECT or WITH as a word, has no forbidden word outside its quoted parts, names the
-- dataset, and each full reference that the pattern finds is to a table of the dataset.
pub record IsSafe (C : Characters) (s : Text) : Type 0 where
  pub is_query : begins_with C.is_word C.same_letter (codes "select" ∷ codes "with" ∷ []) s ≡ true
  pub harmless : ¬ IsWordIn C.is_word C.same_letter forbidden none (without_quotes s)
  pub qualified : has_substring (keep_if (λ c. not (nat_eq c 96)) s) dataset ≡ true
  pub of_dataset :
      all (λ (r : Reference). r.project ++ (46 ∷ r.data_set) == dataset) (references 0 s) ≡ true

accepted :
    (b : Bool) (e : Text) (rest : Result Text (Unit {0}))
    → (if not b then err e else rest) ≡ ok tt
    → (b ≡ true) × (rest ≡ ok tt)
accepted true e rest h = (refl, h)
accepted false e rest h = cc

check_references-all :
    (rs : List Reference)
    → check_references rs ≡ ok tt
    → all (λ (r : Reference). r.project ++ (46 ∷ r.data_set) == dataset) rs ≡ true
unfolding check_references
check_references-all [] h = refl
check_references-all (r ∷ rs) h =
    let (e, f) = accepted (r.project ++ (46 ∷ r.data_set) == dataset) _ (check_references rs) h in
    rw e (check_references-all rs f)

all_passed :
    (a b c : Bool) (i j k s : Text) (last : Result Text (Unit {0})) {t : Text}
    → (raise_if a i >> raise_if b j >> raise_if c k >> last >> ok s) ≡ ok t
    → (a ≡ false) × (b ≡ false) × (c ≡ false) × (last ≡ ok tt) × (s ≡ t)
all_passed true b c i j k s last h = cc
all_passed false true c i j k s last h = cc
all_passed false false true i j k s last h = cc
all_passed false false false i j k s (err e) h = cc
all_passed false false false i j k s (ok x) h = (refl, refl, refl, refl, ok-injective h)

pub guard-IsSafe : (C : Characters) (sql : Text) {s : Text} → guard C sql ≡ ok s → IsSafe C s
unfolding guard
guard-IsSafe C sql {s} h =
    let (a, b, c, d, same) =
      all_passed (not (is_query s0)) (harmful s0) (not (names_dataset s0))
        (codes "rejected: not a SELECT") (codes "rejected: forbidden keyword")
        (codes "rejected: must fully-qualify thelook_ecommerce tables") s0
        (check_references (references 0 s0)) h in
    subst (IsSafe C) same (record {
      is_query = positive _ a;
      harmless = λ found.
          true_not_false
            (sym ((has_word-IsWordIn C.is_word C.same_letter forbidden none _).1 found) ∙ b);
      qualified = positive _ c;
      of_dataset = check_references-all (references 0 s0) d;
    })
  where
    s0 : Text
    s0 = statement_of sql

    is_query : Text → Bool
    is_query t = begins_with C.is_word C.same_letter (codes "select" ∷ codes "with" ∷ []) t

    names_dataset : Text → Bool
    names_dataset t = has_substring (keep_if (λ c. not (nat_eq c 96)) t) dataset

    harmful : Text → Bool
    harmful t = has_word C.is_word C.same_letter forbidden none (without_quotes t)

    positive : (b : Bool) → not b ≡ false → b ≡ true
    positive true h = refl
    positive false h = cc

    true_not_false : ¬ (true ≡ false)
    true_not_false h = cc

module _ (C : Characters) (V : Values) (W : World V) where
  module _ (P : W.State → Type 0)
      (query_keeps : (s : Text) (w : W.State) → IsSafe C s → P w → P (W.query s w).0)
      (ask_keeps : (text : Text) (w : W.State) → P w → P (W.ask text w).0) where
    exec_bq-keeps : (sql : Text) (w : W.State) → P w → P (exec_bq C V W sql w).0
    unfolding exec_bq
    exec_bq-keeps sql w p =
        run_statement-keeps W bq_error (λ e. e) (IsSafe C) P query_keeps (guard C sql) w
          (λ s e. guard-IsSafe C sql e) p

    against_gold-keeps :
        (q : Question) (kind gold_sql : Text) (u : Usage) (got : Result Text (List (List V.Value)))
        (w : W.State)
        → P w
        → P (against_gold C V W q kind gold_sql u got w).0
    unfolding against_gold
    against_gold-keeps q kind gold_sql u (err e) w p = p
    against_gold-keeps q kind gold_sql u (ok got) w p = exec_bq-keeps gold_sql w p

    run_sql-keeps :
        (q : Question) (kind gold_sql : Text) (u : Usage) (sql : Option Text) (w : W.State)
        → P w
        → P (run_sql C V W q kind gold_sql u sql w).0
    unfolding run_sql
    run_sql-keeps q kind gold_sql u none w p = p
    run_sql-keeps q kind gold_sql u (some sql) w p =
        against_gold-keeps q kind gold_sql u _ _ (exec_bq-keeps sql w p)

    expecting-keeps :
        (x : Expect) (q : Question) (a : Answer) (u : Usage) (w : W.State)
        → P w
        → P (expecting C V W x q a u w).0
    unfolding expecting
    expecting-keeps clarify q a u w p = p
    expecting-keeps (result kind gold_sql) q a u w p =
        elim (Bool-cases (acts (codes "sql") a.action)) [
          | inl e ↦ rw e (run_sql-keeps q kind gold_sql u a.sql w p)
          | inr e ↦ rw e p
        ]

    replied-keeps :
        (q : Question) (a : Reply) (u : Usage) (w : W.State) → P w → P (replied C V W q a u w).0
    unfolding replied
    replied-keeps q no_object u w p = p
    replied-keeps q (fields a) u w p = expecting-keeps q.expect q a u w p

    with_cost-keeps :
        (cost : Result RunError V.floats.Float) (a : Reply) (u : Usage) (q : Question)
        (total : V.floats.Float) (w : W.State)
        → P w
        → P (with_cost C V W cost a u q total w).0
    unfolding with_cost
    with_cost-keeps (err e) a u q total w p = p
    with_cost-keeps (ok cost) a u q total w p = replied-keeps q a u w p

    with_reply-keeps :
        (model : Text) (reply : Result Text (Reply × Usage)) (q : Question) (total : V.floats.Float)
        (w : W.State)
        → P w
        → P (with_reply C V W model reply q total w).0
    unfolding with_reply
    with_reply-keeps model (err e) q total w p = p
    with_reply-keeps model (ok (a, u)) q total w p = with_cost-keeps _ a u q total w p

    all_questions-keeps :
        (model : Text) (qs : List Question) (total : V.floats.Float) (w : W.State)
        → P w
        → P (all_questions C V W model qs total w).0
    unfolding all_questions
    all_questions-keeps model [] total w p = p
    all_questions-keeps model (q ∷ qs) total w p =
        let kept =
          with_reply-keeps model (W.ask q.text w).1 q total (W.ask q.text w).0
            (ask_keeps q.text w p) in
        go_on-keeps P (with_reply C V W model (W.ask q.text w).1 q total (W.ask q.text w).0).1 _ _
          (λ total1. all_questions-keeps model qs total1 _ kept) kept

    -- If every statement that passes the guards keeps a property of BigQuery, and every call of the model does,
    -- then every run keeps it: no other statement reaches BigQuery, and no gold statement that fails a guard.
    pub main-keeps_queries :
        (model : Text) (qs : List Question) (w : W.State) → P w → P (main C V W model qs w).0
    unfolding main
    main-keeps_queries model qs w p = all_questions-keeps model qs (V.literal 0 1) w p
