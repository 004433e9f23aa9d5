-- ===== src/Governance/Discovery/ReadOnly.antt =====
-- `discover_github`: the commands that it sends.
use chat_chart.Base.{
  ◌≡◌, refl, false, ◌∷◌, Text, codes, Bool, List, ◌&&◌, ◌==◌, if◌then◌else◌, text_dec,
}
use chat_chart.Governance.Gh.{Gh, could_not_run, gh_get_json, gh_get_pages, gh_get_status}
use chat_chart.Governance.Discovery.{discover_github, inventory_of}
use chat_chart.Governance.Discovery.Security.{alerts_inventory, observed_checks}
use chat_chart.Governance.Discovery.Legacy.{discover_legacy, legacy_behind, legacy_by_status}
use chat_chart.Governance.Discovery.Rulesets.{
  discover_rulesets, discover_ruleset, ruleset_detail, item_of,
}

-- A command that only reads: `gh api --method GET`.
abbrev is_read : List Text → Bool
is_read (program ∷ command ∷ option ∷ method ∷ _) =
    program == codes "gh"
    && command == codes "api"
    && option == codes "--method"
    && method == codes "GET"
is_read _ = false

-- A `gh` that runs nothing but reads.
abbrev pub only_reads : Gh → Gh
only_reads G = record G {
  run = λ command. if is_read command then G.run command else could_not_run;
}

-- The discovery sends nothing but reads: on a `gh` that runs no other command it has the same result, for
-- every repository and branch.
pub discover_github-only_reads :
    (G : Gh) (repository branch : Text)
    → discover_github (only_reads G) repository branch ≡ discover_github G repository branch
unfolding discover_github inventory_of alerts_inventory observed_checks discover_legacy
    legacy_behind legacy_by_status discover_rulesets discover_ruleset ruleset_detail item_of
    gh_get_json gh_get_pages gh_get_status text_dec
discover_github-only_reads G repository branch = refl
