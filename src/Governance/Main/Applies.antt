-- ===== src/Governance/Main/Applies.antt =====
-- `main apply` of scripts/github_governance.py: what a run that exits with 0 has done.
use chat_chart.Base.{◌≡◌, refl, true, false, Bool, Text, some, ok, err, arith, subst, ◌≢◌, ◌↔◌, sym}
use chat_chart.Governance.Settings.{M}
use chat_chart.Governance.Policy.{Policy}
use chat_chart.Governance.Inventory.{Inventory}
use chat_chart.Governance.Errors.{PolicyError}
use chat_chart.Governance.Files.{Disk}
use chat_chart.Governance.Discovery.{discover_github}
use chat_chart.Governance.Apply.{
  Outcome, Evidence, execute_apply, applied, apply_failure, refused, crashed, out_of_fuel,
}
use chat_chart.Governance.Apply.Ends.{IsSuccess}
use chat_chart.Governance.Apply.Loop.{Ends, execute_apply-Ends}
use chat_chart.Governance.Main.{
  GitHub, Arguments, apply, exit_code, exit_of, failed_with, load_policy, remote_of, run_command,
  run_found, run_on, run_target, run_remote, run_any, is_confirmed, target_of, main,
}

pub failed_code : (x : PolicyError) → exit_code (failed_with x) ≢ some 0
unfolding failed_with
failed_code x h = ground arith

outcome_of : (o : Outcome) → exit_code (exit_of o) ≡ some 0 → (e : Evidence) × (o ≡ applied e)
unfolding exit_of
outcome_of (applied e) h = (e, refl)
outcome_of (apply_failure e) h = cc
outcome_of (refused x) h = absurd (failed_code x h)
outcome_of (crashed x e) h = cc
outcome_of out_of_fuel h = cc

module _ (D : Disk) (H : GitHub) where
  -- An apply that was confirmed, succeeded and is verified.
  pub record IsVerifiedApply (args : Arguments D) (repo : Text) (s : H.State) : Type 0 where
    pub policy : Policy
    pub inventory : Inventory
    pub evidence : Evidence
    pub confirms : is_confirmed D H args.confirm_repo repo ≡ true
    pub loads : load_policy D args ≡ ok policy
    pub discovers : discover_github (H.reads s) repo policy.settings.target_branch ≡ ok inventory
    pub applies : (execute_apply policy (remote_of H) inventory repo s).0 ≡ applied evidence
    pub verified : IsSuccess evidence

  found_outcome :
      (policy : Policy) (found : M Inventory) (repo : Text) (s : H.State)
      → exit_code (run_found D H apply policy found repo s).0 ≡ some 0
      → (i : Inventory) × (e : Evidence) × (found ≡ ok i)
        × ((execute_apply policy (remote_of H) i repo s).0 ≡ applied e)
  unfolding run_found run_command
  found_outcome policy (err x) repo s h = absurd (failed_code x h)
  found_outcome policy (ok i) repo s h =
      let (e, c) = outcome_of (execute_apply policy (remote_of H) i repo s).0 h in (i, e, refl, c)

  target_outcome :
      (args : Arguments D) (policy : M Policy) (repo : Text) (confirmed : Bool) (s : H.State)
      → load_policy D args ≡ policy
      → is_confirmed D H args.confirm_repo repo ≡ confirmed
      → exit_code (run_target D H apply policy repo confirmed s).0 ≡ some 0
      → IsVerifiedApply args repo s
  unfolding run_target run_on
  target_outcome args policy repo false s l k h = cc
  target_outcome args (err x) repo true s l k h = absurd (failed_code x h)
  target_outcome args (ok policy) repo true s l k h =
      let (i, e, d, c) = found_outcome policy _ repo s h in
      record {
        policy = policy;
        inventory = i;
        evidence = e;
        confirms = k;
        loads = l;
        discovers = d;
        applies = c;
        verified =
            subst
              (λ o.
                Ends policy (remote_of H) i repo s o
                  (execute_apply policy (remote_of H) i repo s).1)
              c (execute_apply-Ends policy (remote_of H) i repo s);
      }

  verified_code :
      (args : Arguments D) (repo : Text) (confirmed : Bool) (s : H.State)
      → IsVerifiedApply args repo s
      → confirmed ≡ true
      → exit_code (run_target D H apply (load_policy D args) repo confirmed s).0 ≡ some 0
  unfolding run_target run_on run_found run_command exit_of
  verified_code args repo false s a k = cc
  verified_code args repo true s a k =
      rw (a.loads, run_target, a.discovers, run_found, run_command, a.applies) refl

  -- `main apply` on a target exits with 0 exactly if the target was confirmed, the policy loads, the
  -- discovery succeeds, and `execute_apply` on them succeeds. It has then read back a compliant state, and
  -- has verified every action that it attempted, none of them twice.
  pub main-apply_iff :
      (args : Arguments D) (repo : Text) (s : H.State)
      → args.command ≡ apply
      → target_of args.repo ≡ some repo
      → (exit_code (main D H args s).0 ≡ some 0) ↔ IsVerifiedApply args repo s
  unfolding main run_any run_remote
  main-apply_iff args repo s c t = (
    λ h.
        target_outcome args (load_policy D args) repo _ s refl refl
          (subst (λ e. exit_code e ≡ some 0) same h),
    λ a. subst (λ e. exit_code e ≡ some 0) (sym same) (verified_code args repo _ s a a.confirms),
  )
    where
      same :
          (main D H args s).0
          ≡ (run_target D H apply
              (load_policy D args)
              repo
              (is_confirmed D H args.confirm_repo repo)
              s).0
      same = rw (c, t) refl
