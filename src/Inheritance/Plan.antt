-- ===== src/Inheritance/Plan.antt =====
-- scripts/template_inheritance.py: `plan_inheritance`.
pub mod Protects
pub mod Owners
pub mod Placement
use chat_chart.Base.{
  ℕ, ◌+◌, Bool, true, false, not, Option, none, some, List, [], ◌∷◌, ◌++◌, if◌then◌else◌, is_empty,
  length, ok, ◌>>=◌, Text, ◌==◌, require,
}
use chat_chart.Inheritance.Errors.{root_missing}
use chat_chart.Inheritance.Ownership.{M, Owner, inherited, protected, unowned, path_owner}
use chat_chart.Inheritance.Files.{System}
use chat_chart.Inheritance.Contract.{Contract, validate_inheritance}
use chat_chart.Inheritance.Parent.{
  Entry, find_parent_root, next_parent_commit, changed_paths, parent_entry, child_entry,
}

-- `changes` and `skipped`.
pub record Buckets : Type 0 where
  pub add : List Text
  pub modify : List Text
  pub candidate_delete : List Text
  pub already_current : List Text
  pub skipped_protected : List Text
  pub skipped_unowned : List Text

abbrev pub no_paths : Buckets
no_paths = record {
  add = [];
  modify = [];
  candidate_delete = [];
  already_current = [];
  skipped_protected = [];
  skipped_unowned = [];
}

pub data Operation : Type 0 where
  add modify candidate_delete already_current : Operation

same_entry : Entry → Entry → Bool
same_entry (id, true) (id', true) = id == id'
same_entry (id, false) (id', false) = id == id'
same_entry _ _ = false

-- The operation on an inherited path, from its entries in the parent and in the child.
unfoldable pub operation : Option Entry → Option Entry → Operation
unfolding same_entry
operation none none = already_current
operation none (some _) = candidate_delete
operation (some _) none = add
operation (some p) (some c) = if same_entry c p then already_current else modify

-- `changes[operation].append(path)`
unfoldable pub append_change : Operation → Text → Buckets → Buckets
append_change add path b = record b { add = b.add ++ (path ∷ []) }
append_change modify path b = record b { modify = b.modify ++ (path ∷ []) }
append_change candidate_delete path b = record b {
  candidate_delete = b.candidate_delete ++ (path ∷ []);
}
append_change already_current path b = record b {
  already_current = b.already_current ++ (path ∷ []);
}

-- `is not None`, and not the empty text.
unfoldable pub is_truthy : Option Text → Bool
is_truthy none = false
is_truthy (some t) = not (is_empty t)

pub data Status : Type 0 where
  changes up_to_date : Status

-- The report. The counts of `summary` are the lengths of the buckets.
pub record Plan : Type 0 where
  pub status : Status
  pub repository : Text
  pub branch : Text
  pub locked_commit : Text
  pub target_commit : Text
  pub candidate_commit : Option Text
  pub buckets : Buckets
  pub total : ℕ

unfoldable pub total_of : Buckets → ℕ
total_of b =
    length b.add
    + length b.modify
    + length b.candidate_delete
    + length b.already_current
    + length b.skipped_protected
    + length b.skipped_unowned

module _ (S : System) where
  -- The body of the loop for a path with the given owner.
  unfoldable pub place : S.FilePath → S.FilePath → Text → Owner → Text → Buckets → M Buckets
  unfolding parent_entry child_entry operation append_change
  place child_root parent_root candidate protected path b =
      ok (record b { skipped_protected = b.skipped_protected ++ (path ∷ []) })
  place child_root parent_root candidate unowned path b =
      ok (record b { skipped_unowned = b.skipped_unowned ++ (path ∷ []) })
  place child_root parent_root candidate inherited path b = do
    p ← parent_entry S parent_root candidate path
    c ← child_entry S child_root parent_root path
    ok (append_change (operation p c) path b)

  -- The loop over the changed paths.
  unfoldable pub place_all :
      S.FilePath → S.FilePath → Text → Contract → List Text → Buckets → M Buckets
  unfolding place path_owner
  place_all child_root parent_root candidate contract [] b = ok b
  place_all child_root parent_root candidate contract (path ∷ paths) b =
      place child_root parent_root candidate (path_owner path contract.inherited contract.protected)
        path b
      >>= λ b'. place_all child_root parent_root candidate contract paths b'

  -- The `if candidate:` block.
  unfoldable pub plan_changes : S.FilePath → S.FilePath → Contract → Option Text → M Buckets
  unfolding place_all changed_paths
  plan_changes child_root parent_root contract none = ok no_paths
  plan_changes child_root parent_root contract (some candidate) =
      if is_empty candidate
      then ok no_paths
      else changed_paths S parent_root contract.parent.commit candidate >>= λ paths.
          place_all child_root parent_root candidate contract paths no_paths

  -- `plan_inheritance`
  unfoldable pub plan_inheritance : Text → Text → M Plan
  unfolding validate_inheritance find_parent_root next_parent_commit plan_changes is_truthy total_of
  plan_inheritance root parent = do
    contract ← validate_inheritance S root
    child_root ← require (S.resolve (S.path root)) root_missing
    parent_root ← find_parent_root S parent
    (target, candidate) ← next_parent_commit S parent_root contract
    b ← plan_changes child_root parent_root contract candidate
    ok (record {
      status = if is_truthy candidate then changes else up_to_date;
      repository = contract.parent.repository;
      branch = contract.parent.branch;
      locked_commit = contract.parent.commit;
      target_commit = target;
      candidate_commit = candidate;
      buckets = b;
      total = total_of b;
    })
