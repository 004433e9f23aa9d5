-- ===== src/Inheritance/Errors.antt =====
-- The exceptions of scripts/template_inheritance.py: a constructor for each `raise`, without the
-- wording of its message, the `KeyError` of a missing dict key and the `UnicodeDecodeError` of
-- an output of git, which no handler catches.
use chat_chart.Base.{Bool, List, Text}

pub data InheritanceError : Type 0 where
  not_an_object : InheritanceError
  wrong_fields : (unknown missing : List Text) → InheritanceError
  not_a_repository unsafe_root unsafe_branch not_unique_roots : InheritanceError
  roots_overlap : (left right : Text) → InheritanceError
  duplicate_key : Text → InheritanceError
  not_inside_root uses_symlink too_large not_json not_text : InheritanceError
  bad_ignore_entry : InheritanceError
  missing_ignores : List Text → InheritanceError
  unsafe_exceptions : List Text → InheritanceError
  root_missing root_not_directory : InheritanceError
  bad_schema_version : InheritanceError
  owners_overlap : (inherited protected : Text) → InheritanceError
  missing_protected : List Text → InheritanceError
  lock_repository_differs bad_commit : InheritanceError
  git_could_not_run git_failed : InheritanceError
  bad_remote parent_missing parent_not_directory parent_not_top_level : InheritanceError
  parent_origin_differs bad_target : InheritanceError
  not_in_history : (beyond_window : Bool) → InheritanceError
  too_many_changes bad_tree_entry parent_not_regular : InheritanceError
  child_uses_symlink child_not_regular : InheritanceError
  key_error : Text → InheritanceError
  unicode_error : InheritanceError
