-- ===== src/Governance/Profiles/Chain.antt =====
-- `_profile_chain`: the profiles in the order of their parents.
use mathlib.Core.List.Perm
use chat_chart.Base.{
  ℕ, zero, suc, ◌≡◌, refl, subst, inl, inr, true, false, not, some, List, [], ◌∷◌, ◌++◌, arith, ok,
  ◌==◌, keep_if, Text, contains, has_duplicates, Perm, any-append, Value, Bool-cases, ok-injective,
  >>=-eq-ok, require, raise_if, ltb, require-eq-ok, raise_if-eq-ok, length,
}
use chat_chart.Governance.Profiles.{
  Profile, only, profile_chain, read_profiles, chain_from, ids, manager, read_profile, max_profiles,
}
use chat_chart.Governance.Errors.{duplicate_profile, not_one_chain, bad_profiles}

-- Each profile's parent is the one before it, and the first one's is `parent`.
abbrev pub IsChain : Text → List Profile → Type 0
IsChain parent [] = Unit
IsChain parent (p ∷ ps) = (p.parent ≡ parent) × IsChain p.id ps

only-eq : (ps : List Profile) {c : Profile} → only ps ≡ some c → ps ≡ c ∷ []
only-eq [] h = cc
only-eq (p ∷ []) h = ground arith
only-eq (p ∷ q ∷ ps) h = cc

-- The children of a parent, and the profiles but one.
abbrev children : Text → List Profile → List Profile
children parent = keep_if (λ q. q.parent == parent)

abbrev others : Text → List Profile → List Profile
others id = keep_if (λ q. not (q.id == id))

child-parent :
    (parent : Text) (ps : List Profile) {c : Profile}
    → children parent ps ≡ c ∷ []
    → (c.parent ≡ parent) × (contains c.id (ids ps) ≡ true)
unfolding keep_if
child-parent parent [] h = cc
child-parent parent (p ∷ ps) {c} h = elim (Bool-cases (p.parent == parent)) [
  | inl e ↦ (ground arith, ground arith)
  | inr n ↦ let rest = child-parent parent ps {c = c} (ground arith) in (rest.0, ground arith)
]

others-absent : (id : Text) (ps : List Profile) → contains id (ids ps) ≡ false → others id ps ≡ ps
unfolding keep_if
others-absent id [] h = refl
others-absent id (p ∷ ps) h = ground (arith, others-absent id ps)

others-perm :
    (parent : Text) (ps : List Profile) {c : Profile}
    → has_duplicates (ids ps) ≡ false
    → children parent ps ≡ c ∷ []
    → Perm (c ∷ others c.id ps) ps
unfolding keep_if has_duplicates
others-perm parent [] d h = cc
others-perm parent (p ∷ ps) {c} d h = elim (Bool-cases (p.parent == parent)) [
  | inl e ↦
      let same : p ≡ c = ground arith in
      let gone : others c.id (p ∷ ps) ≡ ps = ground (arith, others-absent p.id ps) in
      rw (gone, same) Perm.rfl
  | inr n ↦
      let rest : children parent ps ≡ c ∷ [] = ground arith in
      let listed = (child-parent parent ps rest).1 in
      let kept : others c.id (p ∷ ps) ≡ p ∷ others c.id ps = ground arith in
      rw kept (
        Perm.trans (Perm.swap p c (others c.id ps))
          (Perm.cons p (others-perm parent ps (ground arith) rest)))
]

others-contains :
    (i id : Text) (ps : List Profile)
    → contains i (ids ps) ≡ false
    → contains i (ids (others id ps)) ≡ false
unfolding keep_if
others-contains i id [] h = refl
others-contains i id (p ∷ ps) h = ground (arith, others-contains i id ps)

others-distinct :
    (id : Text) (ps : List Profile)
    → has_duplicates (ids ps) ≡ false
    → has_duplicates (ids (others id ps)) ≡ false
unfolding keep_if has_duplicates
others-distinct id [] h = refl
others-distinct id (p ∷ ps) h = ground (arith, others-distinct id ps, others-contains p.id id ps)

chain_from-IsChain :
    (fuel : ℕ) (parent : Text) (ps : List Profile) {chain : List Profile}
    → has_duplicates (ids ps) ≡ false
    → chain_from fuel parent ps ≡ ok chain
    → IsChain parent chain × Perm chain ps
unfolding chain_from
chain_from-IsChain fuel parent [] d h =
    subst (λ l. IsChain parent l × Perm l []) (ok-injective h) (tt, Perm.rfl)
chain_from-IsChain zero parent (p ∷ ps) d h = cc
chain_from-IsChain (suc fuel) parent (p ∷ ps) d h =
    let all_left = p ∷ ps in
    let (c, e, f) = >>=-eq-ok (require (only (children parent all_left)) not_one_chain) _ h in
    let (rest, e', f') = >>=-eq-ok (chain_from fuel c.id (others c.id all_left)) _ f in
    let one = only-eq (children parent all_left) (require-eq-ok _ _ e) in
    let (chained, perm) =
      chain_from-IsChain fuel c.id (others c.id all_left) (others-distinct c.id all_left d) e' in
    subst (λ l. IsChain parent l × Perm l all_left) (ok-injective f')
      (
        ((child-parent parent all_left one).0, chained),
        Perm.trans (Perm.cons c perm) (others-perm parent all_left d one),
      )

ids-append : (ps qs : List Profile) → ids (ps ++ qs) ≡ ids ps ++ ids qs
ids-append [] qs = refl
ids-append (p ∷ ps) qs = rw (ids-append ps qs)

snoc-distinct :
    (xs : List Text) (x : Text)
    → has_duplicates xs ≡ false
    → contains x xs ≡ false
    → has_duplicates (xs ++ (x ∷ [])) ≡ false
unfolding has_duplicates
snoc-distinct [] x h k = refl
snoc-distinct (y ∷ ys) x h k =
    ground (arith, snoc-distinct ys x, any-append (λ z. y == z) ys (x ∷ []))

read_profiles-distinct :
    (by_id : List Profile) (values : List Value) {ps : List Profile}
    → has_duplicates (ids by_id) ≡ false
    → read_profiles by_id values ≡ ok ps
    → has_duplicates (ids ps) ≡ false
unfolding read_profiles
read_profiles-distinct by_id [] d h = subst (λ l. has_duplicates (ids l) ≡ false) (ok-injective h) d
read_profiles-distinct by_id (v ∷ vs) d h =
    let (p, _, f) = >>=-eq-ok (read_profile v) _ h in
    let (_, e', f') =
      >>=-eq-ok (raise_if (contains p.id (ids by_id)) (duplicate_profile p.id)) _ f in
    let fresh = raise_if-eq-ok (contains p.id (ids by_id)) (duplicate_profile p.id) e' in
    read_profiles-distinct (by_id ++ (p ∷ [])) vs
      (rw ids-append (snoc-distinct (ids by_id) p.id d fresh)) f'

-- An accepted list of profiles is put into one chain of parents that begins at the foundation, and
-- no profile is lost, repeated or added.
pub profile_chain-IsChain :
    (values : List Value) {chain : List Profile}
    → profile_chain values ≡ ok chain
    → (profiles : List Profile) × (read_profiles [] values ≡ ok profiles)
      × IsChain manager chain
      × Perm chain profiles
unfolding profile_chain has_duplicates
profile_chain-IsChain values h =
    let (_, _, f) = >>=-eq-ok (raise_if (ltb max_profiles (length values)) bad_profiles) _ h in
    let (ps, e, f') = >>=-eq-ok (read_profiles [] values) _ f in
    let (chained, perm) =
      chain_from-IsChain (length ps) manager ps (read_profiles-distinct [] values refl e) f' in
    (ps, e, chained, perm)
