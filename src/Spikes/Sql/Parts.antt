-- ===== src/Spikes/Sql/Parts.antt =====
-- What stands in a statement stands in the text that it was cut from.
use chat_chart.Base.{
  ℕ, ◌≡◌, refl, true, [], ◌∷◌, arith, has_substring, starts_with, rstrip, rstrip_step, Text, lstrip,
  strip, starts_with_trans,
}
use chat_chart.Spikes.Sql.{statement_of, without_semicolons, ends_statement}

lstrip_part : (s t : Text) → has_substring (lstrip s) t ≡ true → has_substring s t ≡ true
unfolding has_substring lstrip
lstrip_part [] t h = h
lstrip_part (c ∷ s) t h = ground (arith, lstrip_part s t)

prefix_part :
    (s r t : Text) → starts_with s r ≡ true → has_substring r t ≡ true → has_substring s t ≡ true
unfolding has_substring starts_with
prefix_part [] [] t h e = e
prefix_part (c ∷ s) [] [] h e = ground arith
prefix_part (c ∷ s) [] (d ∷ t) h e = cc
prefix_part [] (d ∷ r) t h e = cc
prefix_part (c ∷ s) (d ∷ r) t h e =
    ground (arith, prefix_part s r t, starts_with_trans (c ∷ s) (d ∷ r) t)

rstrip_step_start :
    (c : ℕ) (s r : Text) → starts_with s r ≡ true → starts_with (c ∷ s) (rstrip_step c r) ≡ true
unfolding starts_with rstrip_step
rstrip_step_start c s [] h = ground arith
rstrip_step_start c s (d ∷ r) h = ground arith

rstrip_start : (s : Text) → starts_with s (rstrip s) ≡ true
unfolding starts_with rstrip
rstrip_start [] = refl
rstrip_start (c ∷ s) = rstrip_step_start c s (rstrip s) (rstrip_start s)

ends_statement_start :
    (c : ℕ) (s r : Text) → starts_with s r ≡ true → starts_with (c ∷ s) (ends_statement c r) ≡ true
unfolding starts_with ends_statement
ends_statement_start c s [] h = ground arith
ends_statement_start c s (d ∷ r) h = ground arith

without_semicolons_start : (s : Text) → starts_with s (without_semicolons s) ≡ true
unfolding starts_with without_semicolons
without_semicolons_start [] = refl
without_semicolons_start (c ∷ s) =
    ends_statement_start c s (without_semicolons s) (without_semicolons_start s)

pub statement_of_part :
    (sql t : Text) → has_substring (statement_of sql) t ≡ true → has_substring sql t ≡ true
unfolding statement_of strip
statement_of_part sql t h = lstrip_part sql t (
    prefix_part (lstrip sql) (strip sql) t (rstrip_start (lstrip sql))
      (prefix_part (strip sql) (statement_of sql) t (without_semicolons_start (strip sql)) h))
