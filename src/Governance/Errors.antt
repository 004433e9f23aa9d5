-- ===== src/Governance/Errors.antt =====
-- The `PolicyError`s of scripts/github_governance.py: a constructor for each `raise`, without the
-- wording of its message. `key_error` and the last three are Python's own exceptions, which no handler catches: the
-- `KeyError` of a missing dict key, the `TypeError` of an unhashable item, and the errors of files.
use chat_chart.Base.{List, Text}

pub data PolicyError : Type 0 where
  not_an_object : PolicyError
  wrong_fields : (unknown missing : List Text) → PolicyError
  bad_schema_version : PolicyError
  bad_rule_refs : PolicyError
  unknown_rule_refs : List Text → PolicyError
  unsafe_branch : PolicyError
  bad_required_checks bad_check_name : PolicyError
  bad_backend bad_approvals not_a_boolean approval_needed : PolicyError
  bad_provider bad_squash_title bad_squash_message : PolicyError
  bad_profiles bad_profile_id not_one_chain : PolicyError
  duplicate_profile : Text → PolicyError
  wrong_manager weakened_minimum wrong_minimum_refs : PolicyError
  wrong_branch bad_observed_checks : PolicyError
  duplicate_rules : Text → PolicyError
  duplicate_managed_ruleset : PolicyError
  unsafe_target incomplete_audit checks_not_observed legacy_not_implemented : PolicyError
  bad_ruleset_id no_update_detail unpreservable bad_rule_inventory : PolicyError
  incomplete_review_state bad_merge_methods state_mismatch bad_status_checks : PolicyError
  wrong_confirmation : PolicyError
  write_could_not_run write_failed : (action : Text) → PolicyError
  read_could_not_run read_failed bad_json bad_pages : (endpoint : Text) → PolicyError
  no_http_status unexpected_status : (endpoint : Text) → PolicyError
  bad_commit bad_run_name bad_context bad_rule bad_rulesets bad_detail : PolicyError
  bad_protection bad_target bad_responses no_protected : PolicyError
  key_error : Text → PolicyError
  duplicate_field : Text → PolicyError
  bad_policy_file bad_profile_root bad_profile_directory many_profiles bad_profile_file :
      PolicyError
  type_error os_error unicode_error : PolicyError
