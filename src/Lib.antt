-- ===== src/Lib.antt =====
-- chat-chart: the repository's own governance, the Python programs that decide what a copy of the
-- template may inherit from its parent, and how the repository is configured on GitHub; and the spikes
-- that measure how well a language model turns questions into SQL.
--
-- The programs and their parts:
--   scripts/template_inheritance.py reads the inheritance contract of a repository, and plans which
--   changes of the parent's next commit it takes.
--     Inheritance/Ownership: `_object`, `_repository`, `_ownership_root`, `_branch`, `_overlaps`,
--       `_reject_overlaps`, `_covers` and `_path_owner`.
--     Inheritance/Files: `_unique_object`, `_read_json` and `_read_template_sync_ignore`.
--     Inheritance/Contract: `validate_inheritance`, in the parts `read_manifest`, `check_ownership`,
--       `validate_template_sync_ignore` and `read_lock`, in the order of the code.
--     Inheritance/Parent: `_git` and what reads its output, up to `_parent_entry` and `_child_entry`.
--     Inheritance/Plan: `plan_inheritance`.
--     Inheritance/Main: `main`.
--   scripts/github_governance.py resolves a policy from its layers, compares it with an inventory of
--   the repository on GitHub, and applies what drifts.
--     Governance/Settings: `_object` to `_validate_settings`.
--     Governance/Profiles: `_profile_chain` and `_merge_required_checks`.
--     Governance/Policy: `MINIMUM_CONTRACT` and `resolve_policy`.
--     Governance/Files: `_load_json`, `_load_profiles` and `_known_rule_ids`.
--     Governance/Inventory: what `discover_github` returns, and `_has_unknown`.
--     Governance/Gh: `_gh_get_json` and `_gh_get_status`.
--     Governance/Discovery: `discover_github`, over its children Security (features, alerts and observed
--       checks), Rules (`_normalize_rules`), Rulesets (`_discover_rulesets`), UpdateState
--       (`_managed_update_state`) and Legacy (`_discover_legacy_protection`).
--     Governance/Compare: `compare_governance`.
--     Governance/Ruleset: `_validate_update_state` and `_ruleset_payload`.
--     Governance/Actions: `build_apply_actions`.
--     Governance/Apply: `_verify_action` and `execute_apply`.
--     Governance/Main: `_gh_write_action`, and `main`, which joins all of them. The child
--       Endings says for which reason it ends with which status.
--   spikes/nl2sql-accuracy/seed.py makes the data of a shop, expected.py the answers to the questions on
--   it, and run_spike.py asks a model for SQL, runs it and compares; spikes/nl2sql-thelook/run_thelook.py
--   does so on BigQuery, with gold statements in place of expected answers.
--     Spikes/Calendar, Spikes/Seed: what seed.py uses of datetime, its rows, and `generate` in the child
--       Generate. Rows and Sound hold its proof.
--     Spikes/Groups, Spikes/Expected: dicts, and expected.py with a definition for each question.
--     Spikes/Sql: the tests on statements that both runs share. Spikes/Rows: rows of cells, and `cost_jpy`.
--     Spikes/Service: the database and the model of both, and how a loop goes on to the next question.
--     Spikes/Accuracy: run_spike.py with `guard` (the tests of `exec_sql`), `want` (the call of
--       expected.py) and `compare`; the child Run has `exec_sql` and `main` on a database and a model.
--     Spikes/Thelook: run_thelook.py in the same way.
--     Spikes/Loops: `for _ in range(n)`, and lemmas on lists.
--   Base holds what they share: results of code that may raise (Exceptions), Python's strings as lists
--   of code points (Strings, Names), lists (Lists) and JSON values (Json).
--
-- How the code corresponds. A function that may raise returns a `Result`: its error is a constructor
-- for the message of the exception. Code on JSON data reads a `Value`, where numbers are
-- integers or the text of a float. A policy, an inventory, a report and an action are records. A dict is
-- an association list, and a set is a list without duplicates that is sorted where the code sorts it.
--
-- What the programs call is a parameter. `System` stands for pathlib, json.loads and git: its `resolve`,
-- `read_text` and `parse_json` fail by `none`, and `parse_json` returns each object with all of its
-- pairs, to which `with_hook` applies the hook. `Disk` is the same for the files of the policy. `Gh` stands
-- for one state of GitHub behind the `gh` program, with json.loads, json.dumps and quote; `GitHub` for the
-- service whose state a write may change. `Remote` is what `execute_apply` sees of it: writes and a
-- discovery that pass on a state, of which nothing is assumed. `main` gives it that of `GitHub`.
-- In the spikes, `Random` stands for random.Random, of which `IsInRange` says that a draw lies in its range;
-- `Floats` and `Values` for the numbers and cells of Python; `Characters` for its tables of characters; and
-- `World` for a database and a language model, which change a state. A database fails with the text of
-- its exception and whether that is one of the module that the code catches. A model's reply is no
-- object, or its fields, where a field that is not text counts as missing.
--
-- Fuel. The profiles' loop runs on the number of profiles, since each round takes one away.
-- `execute_apply` runs on 7: there are 6 kinds of actions, and an action that was attempted before ends
-- the loop. That it never runs out is a part of the theorem on it. The date of a day runs on the number of
-- days, since each month that it goes on has a day at least.
--
-- Not modelled: the parsing of the arguments and the printed text of all programs, the order of unmanaged
-- rules by their JSON text, and the messages of the errors. Case folding is on ASCII letters, since the
-- names that are compared are, and so is the status line of an HTTP answer. Of the spikes, the calls of
-- the model clients and their prompts, `write_db`, which inserts the rows into SQLite, and
-- spikes/evidence-dynamic/make_tenant_data.py, which copies files: they are input and output. The
-- TypeScript modules and the migrations are other programs.
pub mod Base
pub mod Inheritance
pub mod Governance
pub mod Spikes
mod Tests
