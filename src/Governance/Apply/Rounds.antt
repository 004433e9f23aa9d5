-- ===== src/Governance/Apply/Rounds.antt =====
-- `execute_apply`: one round of the loop, and how many rounds there are.
use chat_chart.Base.{
  ℕ, ◌+◌, ◌≤◌, ◌<◌, ◌≡◌, refl, false, ◌||◌, List, [], ◌∷◌, ◌++◌, arith, if◌then◌else◌,
}
use chat_chart.Governance.Apply.{action_eq, attempted_in}
use chat_chart.Governance.Actions.{
  ActionId, branch_ruleset, secret_scanning_action, repository_settings, alerts_action,
  reporting_action, dependabot_action,
}

pub attempted_in-append :
    (id a : ActionId) (xs : List ActionId)
    → attempted_in id (xs ++ (a ∷ [])) ≡ (attempted_in id xs || action_eq id a)
unfolding attempted_in
attempted_in-append id a [] = ground arith
attempted_in-append id a (x ∷ xs) = ground (arith, attempted_in-append id a xs)

left : ActionId → List ActionId → ℕ
left id attempted = if attempted_in id attempted then 0 else 1

-- The actions that were not attempted.
pub remaining : List ActionId → ℕ
remaining xs =
    left branch_ruleset xs
    + left secret_scanning_action xs
    + left repository_settings xs
    + left alerts_action xs
    + left reporting_action xs
    + left dependabot_action xs

left_le : (id a : ActionId) (xs : List ActionId) → left id (xs ++ (a ∷ [])) ≤ left id xs
unfolding left
left_le id a xs = ground (arith, attempted_in-append id a xs)

left_self :
    (a : ActionId) (xs : List ActionId)
    → attempted_in a xs ≡ false
    → left a (xs ++ (a ∷ [])) < left a xs
unfolding action_eq left
left_self branch_ruleset xs h = ground (arith, attempted_in-append branch_ruleset branch_ruleset xs)
left_self secret_scanning_action xs h =
    ground (arith, attempted_in-append secret_scanning_action secret_scanning_action xs)
left_self repository_settings xs h =
    ground (arith, attempted_in-append repository_settings repository_settings xs)
left_self alerts_action xs h = ground (arith, attempted_in-append alerts_action alerts_action xs)
left_self reporting_action xs h =
    ground (arith, attempted_in-append reporting_action reporting_action xs)
left_self dependabot_action xs h =
    ground (arith, attempted_in-append dependabot_action dependabot_action xs)

pub remaining-decreases :
    (a : ActionId) (xs : List ActionId)
    → attempted_in a xs ≡ false
    → remaining (xs ++ (a ∷ [])) < remaining xs
unfolding remaining
remaining-decreases branch_ruleset xs h = omega (
  arith,
  left_self branch_ruleset xs h,
  left_le secret_scanning_action branch_ruleset xs,
  left_le repository_settings branch_ruleset xs,
  left_le alerts_action branch_ruleset xs,
  left_le reporting_action branch_ruleset xs,
  left_le dependabot_action branch_ruleset xs,
)
remaining-decreases secret_scanning_action xs h = omega (
  arith,
  left_self secret_scanning_action xs h,
  left_le branch_ruleset secret_scanning_action xs,
  left_le repository_settings secret_scanning_action xs,
  left_le alerts_action secret_scanning_action xs,
  left_le reporting_action secret_scanning_action xs,
  left_le dependabot_action secret_scanning_action xs,
)
remaining-decreases repository_settings xs h = omega (
  arith,
  left_self repository_settings xs h,
  left_le branch_ruleset repository_settings xs,
  left_le secret_scanning_action repository_settings xs,
  left_le alerts_action repository_settings xs,
  left_le reporting_action repository_settings xs,
  left_le dependabot_action repository_settings xs,
)
remaining-decreases alerts_action xs h = omega (
  arith,
  left_self alerts_action xs h,
  left_le branch_ruleset alerts_action xs,
  left_le secret_scanning_action alerts_action xs,
  left_le repository_settings alerts_action xs,
  left_le reporting_action alerts_action xs,
  left_le dependabot_action alerts_action xs,
)
remaining-decreases reporting_action xs h = omega (
  arith,
  left_self reporting_action xs h,
  left_le branch_ruleset reporting_action xs,
  left_le secret_scanning_action reporting_action xs,
  left_le repository_settings reporting_action xs,
  left_le alerts_action reporting_action xs,
  left_le dependabot_action reporting_action xs,
)
remaining-decreases dependabot_action xs h = omega (
  arith,
  left_self dependabot_action xs h,
  left_le branch_ruleset dependabot_action xs,
  left_le secret_scanning_action dependabot_action xs,
  left_le repository_settings dependabot_action xs,
  left_le alerts_action dependabot_action xs,
  left_le reporting_action dependabot_action xs,
)

pub remaining-start : remaining [] ≡ 6
unfolding remaining left attempted_in
remaining-start = refl

pub action_eq_sym : (a b : ActionId) → action_eq a b ≡ action_eq b a
unfolding action_eq
action_eq_sym a b = ground arith
