-- ===== src/Governance/Main.antt =====
-- scripts/github_governance.py: `_gh_write_action` and `main`.
-- `GitHub` stands for the service behind the `gh` program: in each state it answers reads, and a write
-- command may change the state.
pub mod Exits
pub mod Applies
pub mod Endings
use chat_chart.Base.{
  ℕ, Option, none, some, List, [], ◌∷◌, ok, err, ◌>>=◌, if◌then◌else◌, Text, codes, is_none, Value,
  obj, from_entries, Bool, false, ◌==◌,
}
use chat_chart.Governance.Settings.{M}
use chat_chart.Governance.Gh.{Gh}
use chat_chart.Governance.Ruleset.{payload_value}
use chat_chart.Governance.Files.{Disk, load_json, known_rule_ids, load_profiles}
use chat_chart.Governance.Apply.{
  Remote, caught, Outcome, Evidence, WriteOutcome, applied, execute_apply, apply_failure, refused,
  crashed, out_of_fuel,
}
use chat_chart.Governance.Policy.{Policy, resolve_policy}
use chat_chart.Governance.Compare.{Status, compliant, Report, compare_governance}
use chat_chart.Governance.Actions.{
  Method, Action, Body, post, fields, put, patch, delete, payload, no_body,
}
use chat_chart.Governance.Errors.{PolicyError}
use chat_chart.Governance.Discovery.{discover_github}
use chat_chart.Governance.Inventory.{Inventory}

pub record GitHub : Type 1 where
  pub State : Type 0
  pub reads : State → Gh
  -- The runner on a command, with the text for its standard input.
  pub send : List Text → Option Text → State → WriteOutcome × State
  -- `json.dumps(body, separators=(",", ":"), sort_keys=True)`
  pub compact : Value → Text

abbrev method_text : Method → Text
method_text post = codes "POST"
method_text put = codes "PUT"
method_text patch = codes "PATCH"
method_text delete = codes "DELETE"

-- The body of an action, if it has one.
unfoldable body_value : Body → Option Value
unfolding payload_value
body_value no_body = none
body_value (fields d) = some (obj (from_entries d))
body_value (payload p) = some (obj (payload_value p))

unfoldable write_command : Action → List Text
unfolding body_value
write_command a =
    codes "gh"
    ∷ codes "api"
    ∷ codes "--method"
    ∷ method_text a.method
    ∷ codes "-H"
    ∷ codes "Accept: application/vnd.github+json"
    ∷ codes "-H"
    ∷ codes "X-GitHub-Api-Version: 2026-03-10"
    ∷ a.endpoint
    ∷ (if is_none (body_value a.body) then [] else codes "--input" ∷ codes "-" ∷ [])

-- The run of `_gh_write_action`.
unfoldable pub send_action : (H : GitHub) → Action → H.State → WriteOutcome × H.State
unfolding write_command body_value
send_action H a s =
    H.send (write_command a)
      (elim (body_value a.body) [ none ↦ none | some v ↦ some (H.compact v) ]) s

-- GitHub as `execute_apply` sees it: its `runner` and its `discoverer`.
abbrev pub remote_of : GitHub → Remote
remote_of H = record {
  State = H.State;
  write = λ a s. send_action H a s;
  discover = λ repository branch s. (discover_github (H.reads s) repository branch, s);
}

pub data Command : Type 0 where
  validate plan audit apply : Command

-- The parsed arguments.
pub record Arguments (D : Disk) : Type 0 where
  pub command : Command
  pub root : D.FilePath
  pub foundation : Option D.FilePath
  pub repository : Option D.FilePath
  pub repo : Option Text
  pub confirm_repo : Option Text

-- What `main` prints.
pub data Printed : Type 0 where
  policy_printed : Policy → Printed
  report_printed : Report → Printed
  evidence_printed : Evidence → Printed

-- How `main` ends: an error of `argparse`, a printed report, a `PolicyError` with or without evidence, or
-- a traceback.
pub data Exit : Type 0 where
  usage_error : Exit
  finished : (code : ℕ) → Printed → Exit
  apply_error : Evidence → Exit
  policy_error : PolicyError → Exit
  traceback : PolicyError → Exit
  endless : Exit

-- The exit status, 1 behind a traceback and 2 from `argparse`.
abbrev pub exit_code : Exit → Option ℕ
exit_code usage_error = some 2
exit_code (finished code _) = some code
exit_code (apply_error _) = some 2
exit_code (policy_error _) = some 2
exit_code (traceback _) = some 1
exit_code endless = none

-- The handlers of `main`.
unfoldable pub failed_with : PolicyError → Exit
unfolding caught
failed_with x = if caught x then policy_error x else traceback x

abbrev pub audit_code : Command → Status → ℕ
audit_code audit compliant = 0
audit_code audit _ = 1
audit_code _ _ = 0

unfoldable pub exit_of : Outcome → Exit
unfolding failed_with
exit_of (applied e) = finished 0 (evidence_printed e)
exit_of (apply_failure e) = apply_error e
exit_of (refused x) = failed_with x
exit_of (crashed x _) = traceback x
exit_of out_of_fuel = endless

abbrev or_path : {P : Type 0} → Option P → P → P
or_path none path = path
or_path (some given) path = given

-- `args.repo`, if it is there and not empty.
abbrev pub target_of : Option Text → Option Text
target_of none = none
target_of (some []) = none
target_of (some (c ∷ t)) = some (c ∷ t)

module _ (D : Disk) where
  -- The policy of `main`.
  unfoldable pub load_policy : Arguments D → M Policy
  unfolding load_json known_rule_ids load_profiles resolve_policy
  load_policy args = do
    let root = D.resolve_lenient args.root
    foundation ←
        load_json D
          (or_path args.foundation (D.join_path root (codes ".github/governance/foundation.json")))
    repository ←
        load_json D
          (or_path args.repository (D.join_path root (codes ".github/governance/repository.json")))
    known ← known_rule_ids D root
    profiles ← load_profiles D root
    resolve_policy foundation repository known profiles

  module _ (H : GitHub) where
    -- The report of `plan` and `audit`.
    unfoldable pub run_report : Command → M Report → H.State → Exit × H.State
    unfolding failed_with
    run_report command (err x) s = (failed_with x, s)
    run_report command (ok report) s =
        (finished (audit_code command report.status) (report_printed report), s)

    -- A command other than `validate` on an inventory.
    unfoldable pub run_command : Command → Policy → Inventory → Text → H.State → Exit × H.State
    unfolding exit_of run_report
    run_command apply policy inventory confirmed s =
        let (outcome, s') = execute_apply policy (remote_of H) inventory confirmed s in
        (exit_of outcome, s')
    run_command command policy inventory confirmed s =
        run_report command (compare_governance policy inventory) s

    -- The part of `main` behind the discovery.
    unfoldable pub run_found : Command → Policy → M Inventory → Text → H.State → Exit × H.State
    unfolding run_command failed_with
    run_found command policy (err x) repo s = (failed_with x, s)
    run_found command policy (ok inventory) repo s = run_command command policy inventory repo s

    -- The part of `main` behind the policy, for a command with a target.
    unfoldable pub run_on : Command → Policy → Text → H.State → Exit × H.State
    unfolding run_found
    run_on command policy repo s =
        run_found command policy (discover_github (H.reads s) repo policy.settings.target_branch)
          repo s

    -- A command with a target, where `confirmed` is `args.confirm_repo == args.repo`.
    unfoldable pub run_target : Command → M Policy → Text → Bool → H.State → Exit × H.State
    unfolding run_on failed_with
    run_target apply policy repo false s = (usage_error, s)
    run_target command (err x) repo confirmed s = (failed_with x, s)
    run_target command (ok policy) repo confirmed s = run_on command policy repo s

    abbrev pub is_confirmed : Option Text → Text → Bool
    is_confirmed none repo = false
    is_confirmed (some t) repo = t == repo

    -- A command other than `validate`.
    unfoldable pub run_remote :
        Command → M Policy → Option Text → Option Text → H.State → Exit × H.State
    unfolding run_target
    run_remote command policy none confirm s = (usage_error, s)
    run_remote command policy (some repo) confirm s =
        run_target command policy repo (is_confirmed confirm repo) s

    unfoldable pub run_validate : M Policy → H.State → Exit × H.State
    unfolding failed_with
    run_validate (err x) s = (failed_with x, s)
    run_validate (ok policy) s = (finished 0 (policy_printed policy), s)

    unfoldable pub run_any :
        Command → M Policy → Option Text → Option Text → H.State → Exit × H.State
    unfolding run_remote run_validate
    run_any validate policy repo confirm s = run_validate policy s
    run_any command policy repo confirm s = run_remote command policy repo confirm s

    -- `main`
    unfoldable pub main : Arguments D → H.State → Exit × H.State
    unfolding run_any
    main args s = run_any args.command (load_policy args) (target_of args.repo) args.confirm_repo s
