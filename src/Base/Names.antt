-- ===== src/Base/Names.antt =====
-- The names that both scripts match by regular expressions.
use mathlib.Core.Bool.{Bool, false, not, ◌&&◌, ◌||◌}
use mathlib.Core.List.{List, [], ◌∷◌}
use Prim.Native.Nat.{ℕ}
use chat_chart.Base.Tests.{leb, nat_eq}
use chat_chart.Base.Lists.{all, is_empty}
use chat_chart.Base.Strings.{Text, split}

-- `[A-Za-z0-9_.-]`
unfoldable pub is_name_char : ℕ → Bool
is_name_char c =
    (leb b'A' c && leb c b'Z')
    || (leb b'a' c && leb c b'z')
    || (leb b'0' c && leb c b'9')
    || nat_eq c b'_'
    || nat_eq c b'.'
    || nat_eq c b'-'

-- `[A-Za-z0-9_.-]+`
unfoldable pub is_name : Text → Bool
unfolding is_name_char
is_name s = not (is_empty s) && all is_name_char s

two_names : List Text → Bool
unfolding is_name
two_names (owner ∷ name ∷ []) = is_name owner && is_name name
two_names _ = false

-- `REPOSITORY_TARGET.fullmatch`: no name holds a slash, so a match has exactly one.
unfoldable pub repository_target : Text → Bool
unfolding two_names split
repository_target s = two_names (split b'/' s)
