-- ===== src/Governance/Main/Endings.antt =====
-- `main` of scripts/github_governance.py: the reasons for which it ends, each with its exit status.
pub mod Reasons
use chat_chart.Base.{
  ℕ, ◌≡◌, refl, sym, ◌∙◌, ◌≢◌, ◌⊎◌, inl, inr, Bool, true, false, Option, none, some, arith, ok, err,
  Text,
}
use chat_chart.Governance.Files.{Disk}
use chat_chart.Governance.Main.{
  GitHub, Arguments, run_remote, run_target, failed_with, validate, run_found, run_any,
  run_validate, main, Exit, Policy, exit_of, PolicyError, run_command, run_report, target_of,
  Command, exit_code, run_on, load_policy, M, Inventory, Outcome, caught, is_confirmed, Report,
  discover_github, apply, remote_of, audit, plan, finished, audit_code, report_printed,
}
use chat_chart.Governance.Policy.{Policy}
use chat_chart.Governance.Errors.{PolicyError, type_error, os_error, unicode_error, key_error}
use chat_chart.Governance.Inventory.{Inventory}
use chat_chart.Governance.Settings.{M}
use chat_chart.Governance.Apply.{
  caught, Outcome, Evidence, execute_apply, applied, apply_failure, refused, crashed, out_of_fuel,
}
use chat_chart.Governance.Apply.Loop.{execute_apply-Ends, Ends}
use chat_chart.Governance.Discovery.{discover_github}
use chat_chart.Governance.Compare.{Report, compare_governance, compliant, Status, unknown, drift}

-- The exceptions of Python itself, which no handler of `PolicyError` catches.
abbrev pub IsBuiltin : PolicyError → Type 0
IsBuiltin x =
    (x ≡ type_error) ⊎ (x ≡ os_error) ⊎ (x ≡ unicode_error) ⊎ ((k : Text) × (x ≡ key_error k))

module _ (D : Disk) (H : GitHub) (args : Arguments D) (s : H.State) where
  -- The arguments name a target, which `apply` has confirmed.
  pub record IsTarget (repo : Text) : Type 0 where
    pub remote : args.command ≢ validate
    pub named : target_of args.repo ≡ some repo
    pub confirms : args.command ≡ apply → args.confirm_repo ≡ some repo

  -- The command comes as far as the inventory of its target.
  pub record IsFound (policy : Policy) (inventory : Inventory) (repo : Text) : Type 0 where
    pub target : IsTarget repo
    pub loads : load_policy D args ≡ ok policy
    pub discovers : discover_github (H.reads s) repo policy.settings.target_branch ≡ ok inventory

  -- What `execute_apply` ends with.
  abbrev pub AppliesAs : Policy → Inventory → Text → Outcome → Type 0
  AppliesAs policy inventory repo o = (execute_apply policy (remote_of H) inventory repo s).0 ≡ o

  -- Where the body of the `try` block raises an exception.
  pub data Raises (x : PolicyError) : Type 0 where
    at_policy :
        (args.command ≡ validate) ⊎ ((repo : Text) × IsTarget repo)
        → load_policy D args ≡ err x
        → Raises x
    at_discovery :
        (policy : Policy) (repo : Text)
        → IsTarget repo
        → load_policy D args ≡ ok policy
        → discover_github (H.reads s) repo policy.settings.target_branch ≡ err x
        → Raises x
    at_comparison :
        (policy : Policy) (inventory : Inventory) (repo : Text)
        → IsFound policy inventory repo
        → args.command ≢ apply
        → compare_governance policy inventory ≡ err x
        → Raises x
    at_apply :
        (policy : Policy) (inventory : Inventory) (repo : Text)
        → IsFound policy inventory repo
        → args.command ≡ apply
        → AppliesAs policy inventory repo (refused x)
          ⊎ ((e : Evidence) × AppliesAs policy inventory repo (crashed x e))
        → Raises x

  -- Why `main` exits with a status.
  pub data Ending (n : ℕ) : Type 0 where
    no_target : args.command ≢ validate → target_of args.repo ≡ none → n ≡ 2 → Ending n
    not_confirmed :
        (repo : Text)
        → args.command ≡ apply
        → target_of args.repo ≡ some repo
        → args.confirm_repo ≢ some repo
        → n ≡ 2
        → Ending n
    policy_failure : (x : PolicyError) → Raises x → ¬ IsBuiltin x → n ≡ 2 → Ending n
    uncaught : (x : PolicyError) → Raises x → IsBuiltin x → n ≡ 1 → Ending n
    not_applied :
        (policy : Policy) (inventory : Inventory) (repo : Text) (e : Evidence)
        → IsFound policy inventory repo
        → args.command ≡ apply
        → AppliesAs policy inventory repo (apply_failure e)
        → n ≡ 2
        → Ending n
    not_compliant :
        (policy : Policy) (inventory : Inventory) (repo : Text) (r : Report)
        → IsFound policy inventory repo
        → args.command ≡ audit
        → compare_governance policy inventory ≡ ok r
        → r.status ≢ compliant
        → n ≡ 1
        → Ending n
    is_valid :
        (policy : Policy)
        → args.command ≡ validate
        → load_policy D args ≡ ok policy
        → n ≡ 0
        → Ending n
    planned :
        (policy : Policy) (inventory : Inventory) (repo : Text) (r : Report)
        → IsFound policy inventory repo
        → args.command ≡ plan
        → compare_governance policy inventory ≡ ok r
        → n ≡ 0
        → Ending n
    found_compliant :
        (policy : Policy) (inventory : Inventory) (repo : Text) (r : Report)
        → IsFound policy inventory repo
        → args.command ≡ audit
        → compare_governance policy inventory ≡ ok r
        → r.status ≡ compliant
        → n ≡ 0
        → Ending n
    was_applied :
        (policy : Policy) (inventory : Inventory) (repo : Text) (e : Evidence)
        → IsFound policy inventory repo
        → args.command ≡ apply
        → AppliesAs policy inventory repo (applied e)
        → n ≡ 0
        → Ending n
