-- ===== src/Base/Strings.antt =====
-- Python's `str` as its code points, with the methods that the scripts call.
use Prim.Native.Nat.{ℕ, zero, suc, ◌-◌, ◌+◌, ◌/◌, ◌%◌}
use Prim.Native.Char.{code}
use Prim.Native.String.{String}
use mathlib.Core.Path.{◌≡◌, refl}
use mathlib.Core.Logic.{ite, dite}
use mathlib.Core.Bool.{Bool, true, false, ◌&&◌, ◌||◌, Bool-discrete}
use mathlib.Core.List.{List, [], ◌∷◌, ◌++◌}
use native.Mathlib.Omega.{arith}
use mathlib.Core.Bool.{not}
use chat_chart.Base.Tests.{if◌then◌else◌, leb, ltb, nat_eq}
use chat_chart.Base.Lists.{sort_by, any, length, take, keep_if}

abbrev pub Text : Type 0
Text = List ℕ

-- The code points of a literal.
abbrev pub codes : String → Text
codes String.[] = []
codes (String.◌∷◌ c s) = code c ∷ codes s

unfoldable pub text_eq : Text → Text → Bool
text_eq [] [] = true
text_eq [] (d ∷ t) = false
text_eq (c ∷ s) [] = false
text_eq (c ∷ s) (d ∷ t) = nat_eq c d && text_eq s t

pub text_eq_refl : (s : Text) → text_eq s s ≡ true
unfolding text_eq
text_eq_refl [] = refl
text_eq_refl (c ∷ s) = ground (arith, text_eq_refl s)

pub eq_of_text_eq : (s t : Text) → text_eq s t ≡ true → s ≡ t
unfolding text_eq
eq_of_text_eq [] [] h = refl
eq_of_text_eq [] (d ∷ t) h = cc
eq_of_text_eq (c ∷ s) [] h = cc
eq_of_text_eq (c ∷ s) (d ∷ t) h = ground (arith, eq_of_text_eq s t)

text_eq_of_eq : (s t : Text) → s ≡ t → text_eq s t ≡ true
text_eq_of_eq s t p = rw p (text_eq_refl t)

-- Shut in proofs, where a split on `s == t` yields the equation or its negation.
unfoldable pub text_dec : Discrete Text
unfolding text_eq text_eq_of_eq
text_dec s t =
    dite (Bool-discrete (text_eq s t) true) (λ same. yes (eq_of_text_eq s t same))
      (λ differ. no (λ p. differ (text_eq_of_eq s t p)))

infix 50 ◌==◌
abbrev pub ◌==◌ : Text → Text → Bool
s == t = ite (text_dec s t) true false

-- `x in xs`
abbrev pub contains : Text → List Text → Bool
contains x xs = any (λ y. x == y) xs

-- `s.startswith(t)`
unfoldable pub starts_with : Text → Text → Bool
starts_with s [] = true
starts_with [] (d ∷ t) = false
starts_with (c ∷ s) (d ∷ t) = nat_eq c d && starts_with s t

-- `s.endswith(t)`
unfoldable pub ends_with : Text → Text → Bool
ends_with [] t = [] == t
ends_with (c ∷ s) t = (c ∷ s) == t || ends_with s t

-- `t in s`
unfoldable pub has_substring : Text → Text → Bool
unfolding starts_with
has_substring [] t = starts_with [] t
has_substring (c ∷ s) t = starts_with (c ∷ s) t || has_substring s t

-- `char in s`
abbrev pub char_in : ℕ → Text → Bool
char_in c s = any (nat_eq c) s

-- The pieces once the rest of the text is split: `c` begins a new piece or extends the first one.
unfoldable pub split_step : Bool → ℕ → List Text → List Text
split_step true c pieces = [] ∷ pieces
split_step false c [] = (c ∷ []) ∷ []
split_step false c (p ∷ ps) = (c ∷ p) ∷ ps

-- `s.split(sep)` for a separator of one character.
unfoldable pub split : ℕ → Text → List Text
unfolding split_step
split sep [] = [] ∷ []
split sep (c ∷ s) = split_step (nat_eq c sep) c (split sep s)

-- `sep.join(pieces)`
unfoldable pub join : ℕ → List Text → Text
join sep [] = []
join sep (p ∷ []) = p
join sep (p ∷ q ∷ ps) = p ++ (sep ∷ join sep (q ∷ ps))

-- `str.isspace` of one character.
unfoldable pub is_space : ℕ → Bool
is_space c =
    (leb 9 c && leb c 13)
    || (leb 28 c && leb c 32)
    || nat_eq c 0x85
    || nat_eq c 0xa0
    || nat_eq c 0x1680
    || (leb 0x2000 c && leb c 0x200a)
    || nat_eq c 0x2028
    || nat_eq c 0x2029
    || nat_eq c 0x202f
    || nat_eq c 0x205f
    || nat_eq c 0x3000

unfoldable pub lstrip : Text → Text
unfolding is_space
lstrip [] = []
lstrip (c ∷ s) = let rest = lstrip s in if is_space c then rest else c ∷ s

unfoldable pub rstrip_step : ℕ → Text → Text
unfolding is_space
rstrip_step c [] = if is_space c then [] else c ∷ []
rstrip_step c (d ∷ s) = c ∷ d ∷ s

unfoldable pub rstrip : Text → Text
unfolding rstrip_step
rstrip [] = []
rstrip (c ∷ s) = rstrip_step c (rstrip s)

-- `s.strip()`
unfoldable pub strip : Text → Text
unfolding lstrip rstrip
strip s = rstrip (lstrip s)

-- `s[:-n]`
abbrev pub drop_last : ℕ → Text → Text
drop_last n s = take (length s - n) s

-- Python orders texts by their code points.
unfoldable pub text_le : Text → Text → Bool
text_le [] t = true
text_le (c ∷ s) [] = false
text_le (c ∷ s) (d ∷ t) = ltb c d || (nat_eq c d && text_le s t)

unfoldable pub sorted : List Text → List Text
unfolding sort_by text_le
sorted = sort_by text_le

-- Python's `splitlines`: the characters that end a line, `\r\n` counting as one end.
ends_line : ℕ → Bool
ends_line c =
    (leb 10 c && leb c 13)
    || (leb 28 c && leb c 30)
    || nat_eq c 0x85
    || nat_eq c 0x2028
    || nat_eq c 0x2029

-- The lines of `c ∷ s`, from the lines of `s` and whether `s` begins with a line feed.
line_step : ℕ → Bool → List Text → List Text
unfolding ends_line
line_step c feed lines =
    if nat_eq c 13 && feed then lines else if ends_line c then [] ∷ lines else extend c lines
  where
    extend : ℕ → List Text → List Text
    extend d [] = (d ∷ []) ∷ []
    extend d (l ∷ ls) = (d ∷ l) ∷ ls

unfoldable pub splitlines : Text → List Text
unfolding line_step
splitlines [] = []
splitlines (c ∷ s) = line_step c (starts_with_feed s) (splitlines s)
  where
    starts_with_feed : Text → Bool
    starts_with_feed [] = false
    starts_with_feed (d ∷ t) = nat_eq d 10

-- `str.casefold` on the ASCII letters.
unfoldable pub casefold : Text → Text
casefold [] = []
casefold (c ∷ s) = (if leb 65 c && leb c 90 then c + 32 else c) ∷ casefold s

-- `set(xs) - set(ys)` in sorted order.
unfoldable pub sorted_minus : List Text → List Text → List Text
unfolding keep_if sorted
sorted_minus xs ys = sorted (keep_if (λ x. not (contains x ys)) xs)

-- `len(xs) != len(set(xs))`
unfoldable pub has_duplicates : List Text → Bool
has_duplicates [] = false
has_duplicates (x ∷ xs) = contains x xs || has_duplicates xs

-- The decimal digits of a number below 10 ^ fuel.
digits_from : ℕ → ℕ → Text
digits_from zero n = []
digits_from (suc fuel) n =
    let rest = digits_from fuel (n / 10) in
    if ltb n 10 then (48 + n) ∷ [] else rest ++ ((48 + n % 10) ∷ [])

-- `str` of an int that is not negative.
unfoldable pub decimal : ℕ → Text
unfolding digits_from
decimal n = digits_from (suc n) n
