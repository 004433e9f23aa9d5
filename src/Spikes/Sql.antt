-- ===== src/Spikes/Sql.antt =====
-- The tests on generated SQL that run_spike.py and run_thelook.py share: the statement without white space and
-- semicolons around it, the search for words by `re`, and the statement without its quoted parts.
-- `Characters` stands for Python's character tables.
pub mod Words
pub mod Parts
pub mod Quotes
use chat_chart.Base.{
  ℕ, zero, suc, ◌+◌, ◌-◌, ◌≤◌, ◌<◌, ◌≡◌, refl, sym, ap, ◌∙◌, subst, ◌≢◌, ◌↔◌, ◌⊎◌, inl, inr, ite,
  Bool, true, false, not, ◌&&◌, ◌||◌, Option, none, some, List, [], ◌∷◌, ◌++◌, arith, Result, ok,
  err, ◌>>=◌, ◌>>◌, if◌then◌else◌, ◌==◌, strip, Text, nat_eq, any,
}

-- Python's tables of characters: `\w` of `re`, the letters that `re.I` identifies, and `str.lower`.
pub record Characters : Type 0 where
  pub is_word : ℕ → Bool
  pub same_letter : ℕ → ℕ → Bool
  pub lower : Text → Text

unfoldable pub ends_statement : ℕ → Text → Text
ends_statement c [] = if nat_eq c 59 then [] else c ∷ []
ends_statement c (d ∷ s) = c ∷ d ∷ s

-- `s.rstrip(";")`
unfoldable pub without_semicolons : Text → Text
unfolding ends_statement
without_semicolons [] = []
without_semicolons (c ∷ s) = ends_statement c (without_semicolons s)

-- `sql.strip().rstrip(";")`
unfoldable pub statement_of : Text → Text
unfolding strip without_semicolons
statement_of sql = without_semicolons (strip sql)

-- The character before a position, or after it.
abbrev pub first : Text → Option ℕ
first [] = none
first (c ∷ s) = some c

module _ (is_word : ℕ → Bool) where
  abbrev is_word_at : Option ℕ → Bool
  is_word_at none = false
  is_word_at (some c) = is_word c

  -- `\b` between two characters.
  abbrev pub is_boundary : Option ℕ → Option ℕ → Bool
  is_boundary before after = if is_word_at before then not (is_word_at after) else is_word_at after

  module _ (same : ℕ → ℕ → Bool) where
    -- The text goes on with the word and a boundary after it.
    unfoldable pub goes_on : Option ℕ → Text → Text → Bool
    goes_on before [] s = is_boundary before (first s)
    goes_on before (k ∷ word) [] = false
    goes_on before (k ∷ word) (c ∷ s) = same c k && goes_on (some c) word s

    -- `re.match(r"^(…)\b", s)` for words with a letter at least.
    abbrev pub begins_with : List Text → Text → Bool
    begins_with words s = any (λ word. goes_on none word s) words

    abbrev pub has_word_here : List Text → Option ℕ → Text → Bool
    has_word_here words before s =
        is_boundary before (first s) && any (λ word. goes_on before word s) words

    -- `re.search(r"\b(…)\b", s)`, after the character `before`.
    unfoldable pub has_word : List Text → Option ℕ → Text → Bool
    unfolding goes_on
    has_word words before [] = has_word_here words before []
    has_word words before (c ∷ s) = has_word_here words before (c ∷ s) || has_word words (some c) s

-- The text since an open quote, if one is open, and what leaves the text unchanged.
pub data Quote : Type 0 where
  outside : Quote
  inside : Text → Quote

next_quote : Quote → ℕ → Quote
next_quote outside c = if nat_eq c 39 then inside [] else outside
next_quote (inside held) c = if nat_eq c 39 then outside else inside (held ++ (c ∷ []))

kept : Quote → ℕ → Text
kept outside c = if nat_eq c 39 then [] else c ∷ []
kept (inside held) c = []

-- A quote that is never closed begins no match: it stays, with the text after it.
kept_at_end : Quote → Text
kept_at_end outside = []
kept_at_end (inside held) = 39 ∷ held

unfoldable pub without_quotes_from : Quote → Text → Text
unfolding next_quote kept kept_at_end
without_quotes_from q [] = kept_at_end q
without_quotes_from q (c ∷ s) = kept q c ++ without_quotes_from (next_quote q c) s

-- `re.sub(r"'[^']*'", "", s)`
unfoldable pub without_quotes : Text → Text
unfolding without_quotes_from
without_quotes s = without_quotes_from outside s
