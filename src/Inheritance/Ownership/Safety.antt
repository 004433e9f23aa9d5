-- ===== src/Inheritance/Ownership/Safety.antt =====
-- What `_ownership_root` accepts, against how a file system reads a relative path.
use chat_chart.Base.{
  List, Bool, Text, Value, ◌≡◌, Option, any, is_empty, ◌∷◌, ok, false, [], some, none, arith, strip,
  str, contains, refl, length, codes, ◌≤◌, starts_with, ◌&&◌, split, if◌then◌else◌, ◌==◌, ◌||◌,
}
use chat_chart.Inheritance.Ownership.{ownership_root, bad_part, body, is_directory, bad_char}

-- One part, from the names above it, the nearest first: `.` and the empty part stay, `..` goes up,
-- any other part goes down. `none` has left the top.
enter : List Text → Text → Option (List Text)
enter above part =
    if part == codes "" || part == codes "."
    then some above
    else if part == codes ".."
    then go_up above
    else some (part ∷ above)
  where
    go_up : List Text → Option (List Text)
    go_up [] = none
    go_up (_ ∷ rest) = some rest

unfoldable pub resolve_parts : List Text → List Text → Option (List Text)
unfolding enter
resolve_parts above [] = some above
resolve_parts above (part ∷ parts) = elim (enter above part) [
  | none ↦ none
  | some below ↦ resolve_parts below parts
]

-- Every part goes down.
abbrev pub descend : List Text → List Text → List Text
descend above [] = above
descend above (part ∷ parts) = descend (part ∷ above) parts

resolve_good :
    (above parts : List Text)
    → any bad_part parts ≡ false
    → resolve_parts above parts ≡ some (descend above parts)
unfolding resolve_parts
resolve_good above [] h = refl
resolve_good above (part ∷ parts) h = ground (arith, resolve_good (part ∷ above) parts)

no_git : (parts : List Text) → any bad_part parts ≡ false → contains (codes ".git") parts ≡ false
no_git [] h = refl
no_git (part ∷ parts) h = ground (arith, no_git parts)

-- The tests that an accepted value has passed.
pub record IsAccepted (file_only : Bool) (s : Text) : Type 0 where
  pub nonempty : is_empty s ≡ false
  pub stripped : s ≡ strip s
  pub short : length s ≤ 1024
  pub has_body : is_empty (body s) ≡ false
  pub relative : starts_with (body s) (codes "/") ≡ false
  pub is_file : (file_only && is_directory s) ≡ false
  pub parts_good : any bad_part (split b'/' (body s)) ≡ false
  pub chars_good : any bad_char s ≡ false

pub ownership_root-IsAccepted :
    (v : Value) (file_only : Bool) {r : Text}
    → ownership_root v file_only ≡ ok r
    → (v ≡ str r) × IsAccepted file_only r
unfolding ownership_root
ownership_root-IsAccepted (str s) file_only h = ground arith
ownership_root-IsAccepted _ file_only h = ground arith

-- An accepted value is a text. Read part by part below any directory, its path only goes down, and
-- never through a `.git`. A value that must name a file ends in no slash.
pub ownership_root_below :
    (v : Value) (file_only : Bool) {r : Text} (above : List Text)
    → ownership_root v file_only ≡ ok r
    → (v ≡ str r)
      × (resolve_parts above (split b'/' (body r)) ≡ some (descend above (split b'/' (body r))))
      × (contains (codes ".git") (split b'/' (body r)) ≡ false)
      × ((file_only && is_directory r) ≡ false)
ownership_root_below v file_only {r} above h =
    let (e, a) = ownership_root-IsAccepted v file_only h in
    (
      e,
      resolve_good above (split b'/' (body r)) a.parts_good,
      no_git (split b'/' (body r)) a.parts_good,
      a.is_file,
    )
