-- ===== src/Governance/Profiles/Merge.antt =====
-- `_merge_required_checks`: the checks of all layers, each once.
use chat_chart.Base.{
  ◌≡◌, refl, ◌∙◌, true, false, List, [], ◌∷◌, arith, ◌==◌, Text, has_duplicates, contains, flatten,
  any, any-append,
}
use chat_chart.Governance.Profiles.{merge_required_checks, first_of_each}

contains-first_of_each :
    (c : Text) (seen xs : List Text)
    → contains c seen ≡ false
    → contains c (first_of_each seen xs) ≡ contains c xs
unfolding first_of_each
contains-first_of_each c seen [] h = refl
contains-first_of_each c seen (x ∷ xs) h =
    ground (arith, contains-first_of_each c seen xs h, contains-first_of_each c (x ∷ seen) xs)

none-first_of_each :
    (c : Text) (seen xs : List Text)
    → contains c seen ≡ true
    → contains c (first_of_each seen xs) ≡ false
unfolding first_of_each
none-first_of_each c seen [] h = refl
none-first_of_each c seen (x ∷ xs) h =
    ground (arith, none-first_of_each c seen xs h, none-first_of_each c (x ∷ seen) xs)

pub first_of_each-distinct : (seen xs : List Text) → has_duplicates (first_of_each seen xs) ≡ false
unfolding first_of_each has_duplicates
first_of_each-distinct seen [] = refl
first_of_each-distinct seen (x ∷ xs) = ground (
  arith,
  first_of_each-distinct seen xs,
  first_of_each-distinct (x ∷ seen) xs,
  none-first_of_each x (x ∷ seen) xs,
)

contains-flatten :
    (c : Text) (groups : List (List Text)) → contains c (flatten groups) ≡ any (contains c) groups
unfolding flatten
contains-flatten c [] = refl
contains-flatten c (g ∷ gs) =
    any-append (λ y. c == y) g (flatten gs) ∙ ground (arith, contains-flatten c gs)

-- The merged checks are those of the groups, and none is listed twice.
pub merge_required_checks_lem :
    (groups : List (List Text))
    → ((c : Text) → contains c (merge_required_checks groups) ≡ any (contains c) groups)
      × (has_duplicates (merge_required_checks groups) ≡ false)
unfolding merge_required_checks
merge_required_checks_lem groups = (
  λ c. contains-first_of_each c [] (flatten groups) refl ∙ contains-flatten c groups,
  first_of_each-distinct [] (flatten groups),
)
