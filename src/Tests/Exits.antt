-- ===== src/Tests/Exits.antt =====
-- `main` of scripts/github_governance.py on a small disk, with a `gh` that never runs.
use chat_chart.Base.{
  ◌≡◌, refl, ◌∷◌, [], Text, some, none, codes, ◌++◌, ◌==◌, if◌then◌else◌, ◌↔◌, ℕ, false, true, suc,
}
use chat_chart.Governance.Files.{Disk, contents}
use chat_chart.Governance.Gh.{could_not_run}
use chat_chart.Governance.Main.{GitHub, Command, audit, validate, apply, Arguments, exit_code, main}
use chat_chart.Governance.Main.Exits.{IsCompliantAudit, main-idle, main-audit_iff}
use chat_chart.Governance.Main.Applies.{IsVerifiedApply, main-apply_iff}
use chat_chart.Governance.Apply.{WriteOutcome}
use chat_chart.Tests.Governance.{foundation_value, repository_value}

-- Each file holds its own path, which the parser knows.
abbrev disk : Disk
disk = record {
  FilePath = Text;
  join_path = λ root path. root ++ (codes "/" ++ path);
  same = λ p q. p == q;
  resolve = some;
  resolve_lenient = λ p. p;
  is_symlink = λ p. false;
  exists = λ p. false;
  is_dir = λ p. false;
  is_file = λ p. true;
  sorted_glob = λ p pattern. p ∷ [];
  read_text = contents;
  parse_json = λ t.
      if t == codes "/.github/governance/foundation.json"
      then some foundation_value
      else some repository_value;
}

abbrev github : GitHub
github = record {
  State = ℕ;
  reads = λ n. record {
    run = λ command. could_not_run;
    parse_json = λ t. none;
    dumps = λ v. [];
    quote = λ t. t;
    reference_text = λ source_type source id. source;
  };
  send = λ command input n. (WriteOutcome.exited 0, suc n);
  compact = λ v. [];
}

abbrev arguments : Command → Arguments disk
arguments command = record {
  command = command;
  root = [];
  foundation = none;
  repository = none;
  repo = some (codes "acme/chart");
  confirm_repo = some (codes "acme/chart");
}

main-idle_example : (main disk github (arguments validate) 7).1 ≡ 7
main-idle_example = main-idle disk github (arguments validate) 7 (λ e. cc)

main-audit_iff_example :
    (exit_code (main disk github (arguments audit) 0).0 ≡ some 0)
    ↔ IsCompliantAudit disk github (arguments audit) (codes "acme/chart") 0
main-audit_iff_example =
    main-audit_iff disk github (arguments audit) (codes "acme/chart") 0 refl refl

main-apply_iff_example :
    (exit_code (main disk github (arguments apply) 0).0 ≡ some 0)
    ↔ IsVerifiedApply disk github (arguments apply) (codes "acme/chart") 0
main-apply_iff_example =
    main-apply_iff disk github (arguments apply) (codes "acme/chart") 0 refl refl
