-- ===== src/Inheritance/Plan/Placement.antt =====
-- `plan_inheritance`: where each changed path is put.
use mathlib.Core.List.Perm
use chat_chart.Inheritance.Plan.{
  append_change, Buckets, Operation, add, modify, candidate_delete, already_current,
}
use mathlib.Core.List.{List}
use chat_chart.Base.{
  List, Text, All, Perm, ◌≡◌, ◌++◌, ◌∷◌, perm_append_singleton, perm_middle, [], append_assoc, refl,
}
use chat_chart.Inheritance.Contract.{Contract}
use chat_chart.Inheritance.Ownership.{path_owner, inherited, protected, unowned}

abbrev pub changed_in : Buckets → List Text
changed_in b = b.add ++ (b.modify ++ (b.candidate_delete ++ b.already_current))

abbrev pub placed_in : Buckets → List Text
placed_in b = changed_in b ++ (b.skipped_protected ++ b.skipped_unowned)

-- Every path stands with its owner.
pub record IsPlaced (contract : Contract) (b : Buckets) : Type 0 where
  pub changed :
      All (λ p. path_owner p contract.inherited contract.protected ≡ inherited) (changed_in b)
  pub kept :
      All (λ p. path_owner p contract.inherited contract.protected ≡ protected) b.skipped_protected
  pub ignored :
      All (λ p. path_owner p contract.inherited contract.protected ≡ unowned) b.skipped_unowned

pub All-append {ℓ κ} :
    {A : Type ℓ} (P : A → Type κ) (xs ys : List A) → All P xs → All P ys → All P (xs ++ ys)
All-append P [] ys h k = k
All-append P (x ∷ xs) ys h k = (h.0, All-append P xs ys h.1 k)

All-append_left {ℓ κ} : {A : Type ℓ} (P : A → Type κ) (xs ys : List A) → All P (xs ++ ys) → All P xs
All-append_left P [] ys h = tt
All-append_left P (x ∷ xs) ys h = (h.0, All-append_left P xs ys h.1)

All-append_right {ℓ κ} :
    {A : Type ℓ} (P : A → Type κ) (xs ys : List A) → All P (xs ++ ys) → All P ys
All-append_right P [] ys h = h
All-append_right P (x ∷ xs) ys h = All-append_right P xs ys h.1

pub All-insert {ℓ κ} :
    {A : Type ℓ} (P : A → Type κ) (xs : List A) (p : A) (ys : List A)
    → P p
    → All P (xs ++ ys)
    → All P ((xs ++ (p ∷ [])) ++ ys)
All-insert P [] p ys q h = (q, h)
All-insert P (x ∷ xs) p ys q h = (h.0, All-insert P xs p ys q h.1)

pub All-under {ℓ κ} :
    {A : Type ℓ} (P : A → Type κ) (xs ys zs : List A)
    → (All P ys → All P zs)
    → All P (xs ++ ys)
    → All P (xs ++ zs)
All-under P [] ys zs f h = f h
All-under P (x ∷ xs) ys zs f h = (h.0, All-under P xs ys zs f h.1)

pub insert-perm {ℓ} :
    {A : Type ℓ} (xs : List A) (p : A) (ys : List A)
    → Perm ((xs ++ (p ∷ [])) ++ ys) (p ∷ (xs ++ ys))
insert-perm xs p ys = rw append_assoc (perm_middle xs ys)

pub under-perm {ℓ} :
    {A : Type ℓ} (xs : List A) (p : A) {ys zs : List A}
    → Perm zs (p ∷ ys)
    → Perm (xs ++ zs) (p ∷ (xs ++ ys))
under-perm xs p {ys} h = Perm.trans (Perm.append_left xs h) (perm_middle xs ys)

-- A path is added to exactly one list.
pub append_change-perm :
    (op : Operation) (p : Text) (b : Buckets)
    → Perm (changed_in (append_change op p b)) (p ∷ changed_in b)
unfolding append_change
append_change-perm add p b = insert-perm b.add p _
append_change-perm modify p b = under-perm b.add p (insert-perm b.modify p _)
append_change-perm candidate_delete p b =
    under-perm b.add p (under-perm b.modify p (insert-perm b.candidate_delete p _))
append_change-perm already_current p b = under-perm b.add p (
    under-perm b.modify p
      (under-perm b.candidate_delete p (perm_append_singleton p b.already_current)))

pub append_change-skipped :
    (op : Operation) (p : Text) (b : Buckets)
    → ((append_change op p b).skipped_protected ≡ b.skipped_protected)
      × ((append_change op p b).skipped_unowned ≡ b.skipped_unowned)
unfolding append_change
append_change-skipped add p b = (refl, refl)
append_change-skipped modify p b = (refl, refl)
append_change-skipped candidate_delete p b = (refl, refl)
append_change-skipped already_current p b = (refl, refl)

pub append_change-All {κ} :
    (P : Text → Type κ) (op : Operation) (p : Text) (b : Buckets)
    → P p
    → All P (changed_in b)
    → All P (changed_in (append_change op p b))
unfolding append_change
append_change-All P add p b q h = All-insert P b.add p _ q h
append_change-All P modify p b q h = All-under P b.add _ _ (All-insert P b.modify p _ q) h
append_change-All P candidate_delete p b q h =
    All-under P b.add _ _ (All-under P b.modify _ _ (All-insert P b.candidate_delete p _ q)) h
append_change-All P already_current p b q h =
    All-under P b.add _ _
      (All-under P b.modify _ _ (
        All-under P b.candidate_delete _ _
          (λ k. All-append P b.already_current (p ∷ []) k (q, tt))))
      h
