-- ===== src/Inheritance/Main/Reports.antt =====
-- `main` of scripts/template_inheritance.py: what a run that exits with 0 has printed.
use chat_chart.Base.{◌≡◌, refl, ok, err, >>=-eq-ok, ok-injective, subst, arith, ◌≢◌}
use chat_chart.Inheritance.Errors.{InheritanceError}
use chat_chart.Inheritance.Ownership.{M}
use chat_chart.Inheritance.Files.{System}
use chat_chart.Inheritance.Contract.{Contract, validate_inheritance}
use chat_chart.Inheritance.Contract.Sound.{IsSound, validate_inheritance-IsSound}
use chat_chart.Inheritance.Plan.{plan_inheritance}
use chat_chart.Inheritance.Plan.Protects.{IsPlanFor, plan_inheritance-IsPlanFor}
use chat_chart.Inheritance.Main.{
  Command, Printed, validate, plan, contract_printed, plan_printed, finished, exit_code,
  failed_with, exit_of, report_of, main,
}

-- What a command may print: a sound contract, or a plan under one.
pub IsReport : (S : System) → Command → Printed → Type 0
IsReport S (validate root) (contract_printed c) = IsSound S root c
IsReport S (plan root parent) (plan_printed p) =
    (c : Contract) × (validate_inheritance S root ≡ ok c) × IsSound S root c × IsPlanFor c p
IsReport S _ _ = ⊥

failed_code : (x : InheritanceError) → exit_code (failed_with x) ≢ 0
unfolding failed_with
failed_code x h = ground arith

exit_of-ok :
    (r : M Printed)
    → exit_code (exit_of r) ≡ 0
    → (p : Printed) × (r ≡ ok p) × (exit_of r ≡ finished p)
unfolding exit_of
exit_of-ok (ok p) h = (p, refl, refl)
exit_of-ok (err x) h = absurd (failed_code x h)

module _ (S : System) where
  report_of-IsReport :
      (command : Command) {p : Printed} → report_of S command ≡ ok p → IsReport S command p
  unfolding report_of IsReport
  report_of-IsReport (validate root) h =
      let (c, e, h1) = >>=-eq-ok (validate_inheritance S root) _ h in
      subst (IsReport S (validate root)) (ok-injective h1) (validate_inheritance-IsSound S root e)
  report_of-IsReport (plan root parent) h =
      let (p, e, h1) = >>=-eq-ok (plan_inheritance S root parent) _ h in
      let (c, f, q) = plan_inheritance-IsPlanFor S root parent e in
      subst (IsReport S (plan root parent)) (ok-injective h1)
        (c, f, validate_inheritance-IsSound S root f, q)

  -- A run that exits with 0 has printed the report of its command: a sound contract of the root, or a
  -- plan for the sound contract that `validate_inheritance` accepts there.
  pub main-IsReport :
      (command : Command)
      → exit_code (main S command) ≡ 0
      → (p : Printed) × (main S command ≡ finished p) × IsReport S command p
  unfolding main
  main-IsReport command h =
      let (p, e, f) = exit_of-ok (report_of S command) h in (p, f, report_of-IsReport command e)
