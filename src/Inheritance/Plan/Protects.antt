-- ===== src/Inheritance/Plan/Protects.antt =====
-- `plan_inheritance`: a plan never touches a protected path.
use chat_chart.Inheritance.Ownership.{path_owner, inherited}
use chat_chart.Inheritance.Files.{System}
use chat_chart.Inheritance.Plan.{
  total_of, Buckets, Plan, plan_changes, plan_inheritance, no_paths, is_truthy,
}
use chat_chart.Inheritance.Contract.{Contract, validate_inheritance}
use chat_chart.Base.{
  List, Text, All, ◌≡◌, ok, length, true, Option, false, [], >>=-eq-ok, arith, ◌∷◌, length-append,
  subst, ◌++◌, ok-injective, some, none, refl, require,
}
use chat_chart.Inheritance.Plan.Placement.{IsPlaced, placed_in, changed_in}
use chat_chart.Inheritance.Contract.Exclusive.{IsExclusive}
use chat_chart.Inheritance.Contract.Ignore.{under}
use chat_chart.Inheritance.Errors.{root_missing}
use chat_chart.Inheritance.Parent.{find_parent_root, next_parent_commit}
use chat_chart.Inheritance.Plan.Owners.{plan_changes-perm}
use chat_chart.Inheritance.Contract.Sound.{validate_inheritance-IsSound}

inherited→under :
    (p : Text) (c : Contract)
    → path_owner p c.inherited c.protected ≡ inherited
    → under p c.inherited ≡ true
unfolding path_owner
inherited→under p c h = ground arith

unprotected_changes :
    (c : Contract) (ps : List Text)
    → IsExclusive c.inherited c.protected c.lock_file
    → All (λ p. path_owner p c.inherited c.protected ≡ inherited) ps
    → All (λ p. under p c.protected ≡ false) ps
unprotected_changes c [] x h = tt
unprotected_changes c (p ∷ ps) x h =
    (x.apart p (inherited→under p c h.0), unprotected_changes c ps x h.1)

no_paths-IsPlaced : (c : Contract) → IsPlaced c no_paths
no_paths-IsPlaced c = record { changed = tt; kept = tt; ignored = tt }

total_of-placed : (b : Buckets) → total_of b ≡ length (placed_in b)
unfolding total_of
total_of-placed b = omega (
  arith,
  length-append (changed_in b) (b.skipped_protected ++ b.skipped_unowned),
  length-append b.add (b.modify ++ (b.candidate_delete ++ b.already_current)),
  length-append b.modify (b.candidate_delete ++ b.already_current),
  length-append b.candidate_delete b.already_current,
  length-append b.skipped_protected b.skipped_unowned,
)

-- What a plan promises, by the contract it was made under.
pub record IsPlanFor (c : Contract) (plan : Plan) : Type 0 where
  pub placed : IsPlaced c plan.buckets
  pub spares : All (λ p. under p c.protected ≡ false) (changed_in plan.buckets)
  pub locked : plan.locked_commit ≡ c.parent.commit
  pub counted : plan.total ≡ length (placed_in plan.buckets)
  pub idle : is_truthy plan.candidate_commit ≡ false → placed_in plan.buckets ≡ []

module _ (S : System) (root parent : Text) where
  plan_changes-IsPlaced :
      (child_root parent_root : S.FilePath) (c : Contract) (candidate : Option Text) {b : Buckets}
      → plan_changes S child_root parent_root c candidate ≡ ok b
      → IsPlaced c b × (is_truthy candidate ≡ false → placed_in b ≡ [])
  unfolding plan_changes is_truthy
  plan_changes-IsPlaced child_root parent_root c none h =
      (subst (IsPlaced c) (ok-injective h) (no_paths-IsPlaced c), λ _. ground arith)
  plan_changes-IsPlaced child_root parent_root c (some []) h =
      (subst (IsPlaced c) (ok-injective h) (no_paths-IsPlaced c), λ _. ground arith)
  plan_changes-IsPlaced child_root parent_root c (some (x ∷ xs)) h =
      let (_, _, _, placed) = plan_changes-perm S child_root parent_root (x ∷ xs) c refl h in
      (placed, λ e. cc)

  -- A plan is made under a contract that `validate_inheritance` accepts. It reports paths with their
  -- owners, plans a change of no path under a protected root, counts every reported path, and
  -- reports none if there is no candidate.
  pub plan_inheritance-IsPlanFor :
      {plan : Plan}
      → plan_inheritance S root parent ≡ ok plan
      → (c : Contract) × (validate_inheritance S root ≡ ok c) × IsPlanFor c plan
  unfolding plan_inheritance
  plan_inheritance-IsPlanFor {plan} h =
      let (c, e1, h1) = >>=-eq-ok (validate_inheritance S root) _ h in
      let (child_root, _, h2) = >>=-eq-ok (require (S.resolve (S.path root)) root_missing) _ h1 in
      let (parent_root, _, h3) = >>=-eq-ok (find_parent_root S parent) _ h2 in
      let (next, _, h4) = >>=-eq-ok (next_parent_commit S parent_root c) _ h3 in
      let (b, e5, h5) = >>=-eq-ok (plan_changes S child_root parent_root c next.1) _ h4 in
      let (placed, idle) = plan_changes-IsPlaced child_root parent_root c next.1 e5 in
      let sound = validate_inheritance-IsSound S root e1 in
      (
        c,
        e1,
        subst (IsPlanFor c) (ok-injective h5) (record {
          placed = placed;
          spares = unprotected_changes c (changed_in b) sound.exclusive placed.changed;
          locked = refl;
          counted = total_of-placed b;
          idle = idle;
        }),
      )
