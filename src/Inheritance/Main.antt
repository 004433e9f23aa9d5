-- ===== src/Inheritance/Main.antt =====
-- scripts/template_inheritance.py: `main`, on the parsed arguments, up to what it prints.
pub mod Reports
use chat_chart.Base.{ℕ, ◌≡◌, Bool, true, false, Text, ok, err, if◌then◌else◌, ◌>>=◌}
use chat_chart.Inheritance.Errors.{InheritanceError, key_error, unicode_error}
use chat_chart.Inheritance.Ownership.{M}
use chat_chart.Inheritance.Files.{System}
use chat_chart.Inheritance.Contract.{Contract, validate_inheritance}
use chat_chart.Inheritance.Plan.{Plan, plan_inheritance}

pub data Command : Type 0 where
  validate : (root : Text) → Command
  plan : (root parent_root : Text) → Command

pub data Printed : Type 0 where
  contract_printed : Contract → Printed
  plan_printed : Plan → Printed

-- How `main` ends: with a report, with an `InheritanceError`, or with a traceback.
pub data Exit : Type 0 where
  finished : Printed → Exit
  inheritance_error : InheritanceError → Exit
  traceback : InheritanceError → Exit

abbrev pub exit_code : Exit → ℕ
exit_code (finished _) = 0
exit_code (inheritance_error _) = 2
exit_code (traceback _) = 1

-- `except InheritanceError`
abbrev pub caught : InheritanceError → Bool
caught (key_error _) = false
caught unicode_error = false
caught _ = true

unfoldable pub failed_with : InheritanceError → Exit
failed_with x = if caught x then inheritance_error x else traceback x

unfoldable pub exit_of : M Printed → Exit
unfolding failed_with
exit_of (ok report) = finished report
exit_of (err x) = failed_with x

module _ (S : System) where
  -- The report of a command.
  unfoldable pub report_of : Command → M Printed
  unfolding validate_inheritance plan_inheritance
  report_of (validate root) = validate_inheritance S root >>= λ c. ok (contract_printed c)
  report_of (plan root parent_root) =
      plan_inheritance S root parent_root >>= λ p. ok (plan_printed p)

  -- `main`
  unfoldable pub main : Command → Exit
  unfolding report_of exit_of
  main command = exit_of (report_of command)
