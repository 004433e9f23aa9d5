-- ===== src/Governance/Main/Exits.antt =====
-- `main` of scripts/github_governance.py: what its exit status says.
use chat_chart.Base.{
  ◌≡◌, refl, Text, some, arith, Bool, err, Option, none, ok, ◌≢◌, ◌↔◌, subst, sym,
}
use chat_chart.Governance.Main.{
  Command, audit_code, GitHub, run_report, run_command, run_found, Arguments, run_remote,
  run_target, exit_code, run_validate, run_on, main, load_policy, apply, validate, plan, audit,
  run_any, target_of, is_confirmed,
}
use chat_chart.Governance.Main.Applies.{failed_code}
use chat_chart.Governance.Compare.{Status, Report, compare_governance, compliant}
use chat_chart.Governance.Files.{Disk}
use chat_chart.Governance.Settings.{M}
use chat_chart.Governance.Policy.{Policy}
use chat_chart.Governance.Inventory.{Inventory}
use chat_chart.Governance.Discovery.{discover_github}

module _ (D : Disk) (H : GitHub) where
  -- An audit that finds the repository compliant.
  pub record IsCompliantAudit (args : Arguments D) (repo : Text) (s : H.State) : Type 0 where
    pub policy : Policy
    pub inventory : Inventory
    pub report : Report
    pub loads : load_policy D args ≡ ok policy
    pub discovers : discover_github (H.reads s) repo policy.settings.target_branch ≡ ok inventory
    pub compares : compare_governance policy inventory ≡ ok report
    pub finds : report.status ≡ compliant

  report_idle :
      (command : Command) (found : M Report) (s : H.State) → (run_report D H command found s).1 ≡ s
  unfolding run_report
  report_idle command (err x) s = refl
  report_idle command (ok r) s = refl

  found_idle :
      (command : Command) (policy : Policy) (found : M Inventory) (repo : Text) (s : H.State)
      → command ≢ apply
      → (run_found D H command policy found repo s).1 ≡ s
  unfolding run_found run_command
  found_idle command policy (err x) repo s n = refl
  found_idle validate policy (ok i) repo s n = report_idle validate _ s
  found_idle plan policy (ok i) repo s n = report_idle plan _ s
  found_idle audit policy (ok i) repo s n = report_idle audit _ s
  found_idle apply policy (ok i) repo s n = absurd (n refl)

  target_idle :
      (command : Command) (policy : M Policy) (repo : Text) (confirmed : Bool) (s : H.State)
      → command ≢ apply
      → (run_target D H command policy repo confirmed s).1 ≡ s
  unfolding run_target run_on
  target_idle apply policy repo confirmed s n = absurd (n refl)
  target_idle validate (err x) repo confirmed s n = refl
  target_idle validate (ok policy) repo confirmed s n = found_idle validate policy _ repo s n
  target_idle plan (err x) repo confirmed s n = refl
  target_idle plan (ok policy) repo confirmed s n = found_idle plan policy _ repo s n
  target_idle audit (err x) repo confirmed s n = refl
  target_idle audit (ok policy) repo confirmed s n = found_idle audit policy _ repo s n

  remote_idle :
      (command : Command) (policy : M Policy) (repo confirm : Option Text) (s : H.State)
      → command ≢ apply
      → (run_remote D H command policy repo confirm s).1 ≡ s
  unfolding run_remote
  remote_idle command policy none confirm s n = refl
  remote_idle command policy (some repo) confirm s n = target_idle command policy repo _ s n

  any_idle :
      (command : Command) (policy : M Policy) (repo confirm : Option Text) (s : H.State)
      → command ≢ apply
      → (run_any D H command policy repo confirm s).1 ≡ s
  unfolding run_any run_validate
  any_idle validate (err x) repo confirm s n = refl
  any_idle validate (ok policy) repo confirm s n = refl
  any_idle plan policy repo confirm s n = remote_idle plan policy repo confirm s n
  any_idle audit policy repo confirm s n = remote_idle audit policy repo confirm s n
  any_idle apply policy repo confirm s n = absurd (n refl)

  -- Only `apply` sends a write: every other command leaves GitHub as it was.
  pub main-idle :
      (args : Arguments D) (s : H.State) → args.command ≢ apply → (main D H args s).1 ≡ s
  unfolding main
  main-idle args s n = any_idle args.command _ _ args.confirm_repo s n

  report_code :
      (found : M Report) (s : H.State)
      → exit_code (run_report D H audit found s).0 ≡ some 0
      → (r : Report) × (found ≡ ok r) × (r.status ≡ compliant)
  unfolding run_report
  report_code (err x) s h = absurd (failed_code x h)
  report_code (ok r) s h = (r, refl, code_status r.status h)
    where
      code_status : (t : Status) → some (audit_code audit t) ≡ some 0 → t ≡ compliant
      code_status t h = ground arith

  found_code :
      (policy : Policy) (found : M Inventory) (repo : Text) (s : H.State)
      → exit_code (run_found D H audit policy found repo s).0 ≡ some 0
      → (i : Inventory) × (r : Report) × (found ≡ ok i)
        × (compare_governance policy i ≡ ok r)
        × (r.status ≡ compliant)
  unfolding run_found run_command
  found_code policy (err x) repo s h = absurd (failed_code x h)
  found_code policy (ok i) repo s h =
      let (r, e, c) = report_code (compare_governance policy i) s h in (i, r, refl, e, c)

  policy_code :
      (args : Arguments D) (policy : M Policy) (repo : Text) (confirmed : Bool) (s : H.State)
      → load_policy D args ≡ policy
      → exit_code (run_target D H audit policy repo confirmed s).0 ≡ some 0
      → IsCompliantAudit args repo s
  unfolding run_target run_on
  policy_code args (err x) repo confirmed s l h = absurd (failed_code x h)
  policy_code args (ok policy) repo confirmed s l h =
      let (i, r, d, c, f) = found_code policy _ repo s h in
      record {
        policy = policy;
        inventory = i;
        report = r;
        loads = l;
        discovers = d;
        compares = c;
        finds = f;
      }

  audit_code-compliant :
      (args : Arguments D) (repo : Text) (confirmed : Bool) (s : H.State)
      → IsCompliantAudit args repo s
      → exit_code (run_target D H audit (load_policy D args) repo confirmed s).0 ≡ some 0
  unfolding run_target run_on run_found run_command run_report
  audit_code-compliant args repo confirmed s a =
      rw (a.loads, run_target, a.discovers, run_found, a.compares, run_report, a.finds) refl

  -- `main audit` on a target exits with 0 exactly if the policy loads, the discovery succeeds, and the
  -- comparison finds the repository compliant.
  pub main-audit_iff :
      (args : Arguments D) (repo : Text) (s : H.State)
      → args.command ≡ audit
      → target_of args.repo ≡ some repo
      → (exit_code (main D H args s).0 ≡ some 0) ↔ IsCompliantAudit args repo s
  unfolding main run_any run_remote
  main-audit_iff args repo s c t = (
    λ h.
        policy_code args (load_policy D args) repo _ s refl
          (subst (λ e. exit_code e ≡ some 0) same h),
    λ a. subst (λ e. exit_code e ≡ some 0) (sym same) (audit_code-compliant args repo _ s a),
  )
    where
      same :
          (main D H args s).0
          ≡ (run_target D H audit
              (load_policy D args)
              repo
              (is_confirmed D H args.confirm_repo repo)
              s).0
      same = rw (c, t) refl
