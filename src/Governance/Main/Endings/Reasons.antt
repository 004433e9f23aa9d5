-- ===== src/Governance/Main/Endings/Reasons.antt =====
-- `main` of scripts/github_governance.py: what its exit status means.
use chat_chart.Base.{ℕ, ◌≡◌, some}
use chat_chart.Governance.Files.{Disk}
use chat_chart.Governance.Main.{
  GitHub, Arguments, Exit, Policy, PolicyError, exit_code, M, Inventory, Outcome, caught, Report,
  discover_github,
}
use chat_chart.Governance.Policy.{Policy}
use chat_chart.Governance.Errors.{PolicyError}
use chat_chart.Governance.Inventory.{Inventory}
use chat_chart.Governance.Settings.{M}
use chat_chart.Governance.Apply.{caught, Outcome}
use chat_chart.Governance.Discovery.{discover_github}
use chat_chart.Governance.Compare.{Report}
use chat_chart.Governance.Main.Endings.{Ending}

module _ (D : Disk) (H : GitHub) (args : Arguments D) (s : H.State) where
  abbrev Explained : Exit → Type 0
  Explained e = (n : ℕ) × (exit_code e ≡ some n) × Ending D H args s n
