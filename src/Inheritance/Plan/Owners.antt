-- ===== src/Inheritance/Plan/Owners.antt =====
-- `plan_inheritance`: every changed path is reported once, in the list of its owner.
use mathlib.Core.List.Perm
use chat_chart.Inheritance.Contract.{Contract}
use chat_chart.Inheritance.Files.{System}
use chat_chart.Base.{
  Text, ◌≡◌, ok, Perm, refl, ◌∷◌, subst, ok-injective, List, is_empty, [], false, ◌++◌, >>=-eq-ok,
  perm_append_singleton, some, perm_middle, ◌>>=◌, append-nil,
}
use chat_chart.Inheritance.Plan.{place, Buckets, plan_changes, place_all, operation, no_paths}
use chat_chart.Inheritance.Ownership.{Owner, path_owner, protected, unowned, inherited}
use chat_chart.Inheritance.Plan.Placement.{
  IsPlaced, placed_in, under-perm, All-append, changed_in, insert-perm, append_change-skipped,
  append_change-All, append_change-perm,
}
use chat_chart.Inheritance.Parent.{parent_entry, changed_paths, child_entry}

abbrev owner_of : Contract → Text → Owner
owner_of contract p = path_owner p contract.inherited contract.protected

module _ (S : System) (child_root parent_root : S.FilePath) (candidate : Text) where
  place-perm :
      (o : Owner) (p : Text) (b : Buckets) {b' : Buckets}
      → place S child_root parent_root candidate o p b ≡ ok b'
      → Perm (placed_in b') (p ∷ placed_in b)
  unfolding place
  place-perm protected p b h =
      subst (λ r. Perm (placed_in r) (p ∷ placed_in b)) (ok-injective h)
        (under-perm (changed_in b) p (insert-perm b.skipped_protected p _))
  place-perm unowned p b h =
      subst (λ r. Perm (placed_in r) (p ∷ placed_in b)) (ok-injective h)
        (under-perm (changed_in b) p
          (under-perm b.skipped_protected p (perm_append_singleton p b.skipped_unowned)))
  place-perm inherited p b h =
      let (x, e, f) = >>=-eq-ok (parent_entry S parent_root candidate p) _ h in
      let (y, e', f') = >>=-eq-ok (child_entry S child_root parent_root p) _ f in
      let (kept, ignored) = append_change-skipped (operation x y) p b in
      subst (λ r. Perm (placed_in r) (p ∷ placed_in b)) (ok-injective f')
        (rw (kept, ignored) (Perm.append_right _ (append_change-perm (operation x y) p b)))

  place-owned :
      (contract : Contract) (o : Owner) (p : Text) (b : Buckets) {b' : Buckets}
      → owner_of contract p ≡ o
      → IsPlaced contract b
      → place S child_root parent_root candidate o p b ≡ ok b'
      → IsPlaced contract b'
  unfolding place
  place-owned contract protected p b e i h = subst (IsPlaced contract) (ok-injective h) (record {
    changed = i.changed;
    kept = All-append _ b.skipped_protected (p ∷ []) i.kept (e, tt);
    ignored = i.ignored;
  })
  place-owned contract unowned p b e i h = subst (IsPlaced contract) (ok-injective h) (record {
    changed = i.changed;
    kept = i.kept;
    ignored = All-append _ b.skipped_unowned (p ∷ []) i.ignored (e, tt);
  })
  place-owned contract inherited p b e i h =
      let (x, _, f) = >>=-eq-ok (parent_entry S parent_root candidate p) _ h in
      let (y, _, f') = >>=-eq-ok (child_entry S child_root parent_root p) _ f in
      let (kept, ignored) = append_change-skipped (operation x y) p b in
      subst (IsPlaced contract) (ok-injective f') (record {
        changed = append_change-All _ (operation x y) p b e i.changed;
        kept = rw kept i.kept;
        ignored = rw ignored i.ignored;
      })

  place_all-perm :
      (contract : Contract) (paths : List Text) (b : Buckets) {b' : Buckets}
      → place_all S child_root parent_root candidate contract paths b ≡ ok b'
      → Perm (placed_in b') (paths ++ placed_in b)
  unfolding place_all
  place_all-perm contract [] b h =
      subst (λ r. Perm (placed_in r) (placed_in b)) (ok-injective h) Perm.rfl
  place_all-perm contract (p ∷ ps) b h =
      let o = owner_of contract p in
      let (b1, e, f) = >>=-eq-ok (place S child_root parent_root candidate o p b) _ h in
      Perm.trans (place_all-perm contract ps b1 f)
        (Perm.trans (Perm.append_left ps (place-perm o p b e)) (perm_middle ps (placed_in b)))

  place_all-IsPlaced :
      (contract : Contract) (paths : List Text) (b : Buckets) {b' : Buckets}
      → IsPlaced contract b
      → place_all S child_root parent_root candidate contract paths b ≡ ok b'
      → IsPlaced contract b'
  unfolding place_all
  place_all-IsPlaced contract [] b i h = subst (IsPlaced contract) (ok-injective h) i
  place_all-IsPlaced contract (p ∷ ps) b i h =
      let o = owner_of contract p in
      let (b1, e, f) = >>=-eq-ok (place S child_root parent_root candidate o p b) _ h in
      place_all-IsPlaced contract ps b1 (place-owned contract o p b refl i e) f

  -- The plan of a candidate reports each path that the candidate changes exactly once, and in the
  -- list of its owner: only inherited paths are planned to change.
  pub plan_changes-perm :
      (contract : Contract) {b : Buckets}
      → is_empty candidate ≡ false
      → plan_changes S child_root parent_root contract (some candidate) ≡ ok b
      → (paths : List Text) × (changed_paths S parent_root contract.parent.commit candidate
          ≡ ok paths)
        × Perm (placed_in b) paths
        × IsPlaced contract b
  unfolding plan_changes
  plan_changes-perm contract {b} n h =
      let h' : (changed_paths S parent_root contract.parent.commit candidate >>= λ paths.
      place_all S child_root parent_root candidate contract paths no_paths)
          ≡ ok b =
        rw n at h in
      let (paths, e, f) =
        >>=-eq-ok (changed_paths S parent_root contract.parent.commit candidate) _ h' in
      (
        paths,
        e,
        subst (Perm (placed_in b)) (append-nil paths) (place_all-perm contract paths no_paths f),
        place_all-IsPlaced contract paths no_paths
            (record { changed = tt; kept = tt; ignored = tt }) f,
      )
