-- ===== src/Spikes/Accuracy/Guards.antt =====
-- What a statement satisfies that `exec_sql` hands to the database.
use chat_chart.Base.{
  ◌≡◌, refl, sym, ◌∙◌, subst, Bool, true, false, not, ◌||◌, none, [], ◌∷◌, arith, ok, ◌>>◌,
  raise_if, Text, has_substring, codes, ok-injective, nat_eq,
}
use chat_chart.Spikes.Sql.{Characters, begins_with, statement_of, without_quotes, has_word}
use chat_chart.Spikes.Accuracy.{guard, quoted, forbidden}
use chat_chart.Spikes.Sql.Parts.{statement_of_part}
use chat_chart.Spikes.Sql.Words.{IsWordIn, has_word-IsWordIn}

-- What the guards demand: SELECT or WITH as a first word, the name of the tenant in quotes, no name of another
-- tenant, and no forbidden word outside the quoted parts.
pub record IsSafe (C : Characters) (s : Text) : Type 0 where
  pub is_query : begins_with C.is_word C.same_letter (codes "select" ∷ codes "with" ∷ []) s ≡ true
  pub of_tenant : (has_substring s (quoted 39) || has_substring s (quoted 34)) ≡ true
  pub not_bravo : has_substring s (codes "t_bravo") ≡ false
  pub not_charlie : has_substring s (codes "t_charlie") ≡ false
  pub harmless : ¬ IsWordIn C.is_word nat_eq forbidden none (C.lower (without_quotes s))

all_passed :
    (a b c d e : Bool) (i j k l m s : Text) {t : Text}
    → (raise_if a i >> raise_if b j >> raise_if c k >> raise_if d l >> raise_if e m >> ok s) ≡ ok t
    → (a ≡ false) × (b ≡ false) × (c ≡ false) × (d ≡ false) × (e ≡ false) × (s ≡ t)
all_passed true b c d e i j k l m s h = cc
all_passed false true c d e i j k l m s h = cc
all_passed false false true d e i j k l m s h = cc
all_passed false false false true e i j k l m s h = cc
all_passed false false false false true i j k l m s h = cc
all_passed false false false false false i j k l m s h =
    (refl, refl, refl, refl, refl, ok-injective h)

not_part : (sql t : Text) → has_substring sql t ≡ false → has_substring (statement_of sql) t ≡ false
not_part sql t h = ground (arith, statement_of_part sql t)

-- A statement that passes the guards begins with SELECT or WITH as a word, contains the name of the tenant in
-- quotes and none of the other two tenants, and has no forbidden word outside its quoted parts.
pub guard-IsSafe : (C : Characters) (sql : Text) {s : Text} → guard C sql ≡ ok s → IsSafe C s
unfolding guard
guard-IsSafe C sql {s} h =
    let (a, b, c, d, e, same) =
      all_passed (not (is_query s0)) (not (of_tenant s0)) (has_substring sql (codes "t_bravo"))
        (has_substring sql (codes "t_charlie")) (harmful s0) (codes "rejected: not a SELECT")
        (codes "rejected: missing tenant filter")
        (codes "rejected: references other tenant t_bravo")
        (codes "rejected: references other tenant t_charlie") (codes "rejected: forbidden keyword")
        s0 h in
    subst (IsSafe C) same (record {
      is_query = positive _ a;
      of_tenant = positive _ b;
      not_bravo = not_part sql (codes "t_bravo") c;
      not_charlie = not_part sql (codes "t_charlie") d;
      harmless = λ found.
          true_not_false (sym ((has_word-IsWordIn C.is_word nat_eq forbidden none _).1 found) ∙ e);
    })
  where
    s0 : Text
    s0 = statement_of sql

    is_query : Text → Bool
    is_query t = begins_with C.is_word C.same_letter (codes "select" ∷ codes "with" ∷ []) t

    of_tenant : Text → Bool
    of_tenant t = has_substring t (quoted 39) || has_substring t (quoted 34)

    harmful : Text → Bool
    harmful t = has_word C.is_word nat_eq forbidden none (C.lower (without_quotes t))

    positive : (b : Bool) → not b ≡ false → b ≡ true
    positive true h = refl
    positive false h = cc

    true_not_false : ¬ (true ≡ false)
    true_not_false h = cc
