-- ===== src/Tests/Statements.antt =====
-- The guards of the spikes on small statements.
use chat_chart.Base.{
  ℕ, ◌+◌, ◌≡◌, refl, ◌↔◌, Bool, true, false, ◌&&◌, ◌||◌, none, [], ◌∷◌, ok, err, if◌then◌else◌, leb,
  Text, nat_eq, codes, casefold,
}
use chat_chart.Spikes.Sql.{has_word, Characters, without_quotes}
use chat_chart.Spikes.Accuracy.Guards.{IsSafe, guard-IsSafe}
use chat_chart.Spikes.Sql.Quotes.{without_quotes-Removes, Removes}
use chat_chart.Spikes.Sql.Words.{IsWordIn, has_word-IsWordIn}
use chat_chart.Spikes.Accuracy.{guard}

-- ASCII alone.
abbrev pub ascii_word : ℕ → Bool
ascii_word c =
    (leb 97 c && leb c 122) || (leb 65 c && leb c 90) || (leb 48 c && leb c 57) || nat_eq c 95

abbrev lower_letter : ℕ → ℕ
lower_letter c = if leb 65 c && leb c 90 then c + 32 else c

abbrev pub ascii : Characters
ascii = record {
  is_word = ascii_word;
  same_letter = λ c d. nat_eq (lower_letter c) (lower_letter d);
  lower = casefold;
}

has_word-IsWordIn_example :
    (has_word ascii_word nat_eq (codes "drop" ∷ []) none (codes "no drops, drop it") ≡ true)
    ↔ IsWordIn ascii_word nat_eq (codes "drop" ∷ []) none (codes "no drops, drop it")
has_word-IsWordIn_example =
    has_word-IsWordIn ascii_word nat_eq (codes "drop" ∷ []) none (codes "no drops, drop it")

has_word_test :
    has_word ascii_word nat_eq (codes "drop" ∷ []) none (codes "no drops, drop it") ≡ true
unfolding has_word
has_word_test = refl

has_word_part_test :
    has_word ascii_word nat_eq (codes "drop" ∷ []) none (codes "drops, backdrop") ≡ false
unfolding has_word
has_word_part_test = refl

without_quotes-Removes_example :
    (without_quotes (codes "a'drop'c") ≡ codes "ac") ↔ Removes (codes "a'drop'c") (codes "ac")
without_quotes-Removes_example = without_quotes-Removes (codes "a'drop'c") (codes "ac")

without_quotes_test : without_quotes (codes "a'drop'c'd") ≡ codes "ac'd"
unfolding without_quotes
without_quotes_test = refl

abbrev pub allowed : Text
allowed = codes " SELECT 1 FROM t WHERE tenant_id = 't_alpha';"

abbrev pub allowed_statement : Text
allowed_statement = codes "SELECT 1 FROM t WHERE tenant_id = 't_alpha'"

pub allowed_test : guard ascii allowed ≡ ok allowed_statement
unfolding guard casefold
allowed_test = refl

other_tenant_test :
    guard ascii (codes "select 't_alpha', 't_bravo'")
    ≡ err (codes "rejected: references other tenant t_bravo")
unfolding guard
other_tenant_test = refl

-- The name of the tenant need not stand in a filter.
no_filter_test :
    guard ascii (codes "select 't_alpha', o from o") ≡ ok (codes "select 't_alpha', o from o")
unfolding guard casefold
no_filter_test = refl

guard-IsSafe_example : IsSafe ascii allowed_statement
guard-IsSafe_example = guard-IsSafe ascii allowed allowed_test
