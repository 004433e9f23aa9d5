-- ===== src/Inheritance/Parent/History.antt =====
-- `_next_parent_commit`: which commit of the parent's first-parent history comes next.
use chat_chart.Inheritance.Parent.{index_of, next_commit, max_first_parent_commits}
use chat_chart.Base.{
  Text, List, ◌≡◌, contains, ◌++◌, true, ◌∷◌, nat_eq, false, arith, [], get_elem?, ◌-◌, some,
  Bool-cases, ◌==◌, inl, inr, get_elem?-pred, ◌≢◌, none, Option-cases, Option, ok, err, ltb, length,
  refl,
}
use chat_chart.Inheritance.Ownership.{M}
use chat_chart.Inheritance.Errors.{not_in_history}

-- The history is listed from the newest commit to the oldest.
abbrev pub LiesBehind : Text → Text → List Text → Type 0
LiesBehind locked next history =
    (newer : List Text) × (older : List Text) × (history ≡ newer ++ (next ∷ locked ∷ older))
    × (contains locked (newer ++ (next ∷ [])) ≡ false)

first_is_locked :
    (locked : Text) (history : List Text)
    → contains locked history ≡ true
    → nat_eq (index_of locked history) 0 ≡ true
    → (older : List Text) × (history ≡ locked ∷ older)
unfolding index_of
first_is_locked locked [] m n = cc
first_is_locked locked (c ∷ cs) m n = (cs, ground arith)

behind :
    (locked : Text) (history : List Text) (next : Text)
    → contains locked history ≡ true
    → nat_eq (index_of locked history) 0 ≡ false
    → get_elem? history (index_of locked history - 1) ≡ some next
    → LiesBehind locked next history
unfolding index_of
behind locked [] next m n g = cc
behind locked (c ∷ []) next m n g = absurd (ground arith)
behind locked (c ∷ d ∷ ds) next m n g = elim (Bool-cases (d == locked)) [
  | inl e ↦ ([], ds, ground arith, ground arith)
  | inr e ↦
      let (newer, older, split, fresh) =
        behind locked (d ∷ ds) next (ground arith) (ground arith)
          (ground (arith, get_elem?-pred c (d ∷ ds) (index_of locked (d ∷ ds)))) in
      (c ∷ newer, older, ground arith, ground arith)
]

-- What the result of the search says of the history.
abbrev pub NextOf : Text → List Text → M (Option Text) → Type 0
NextOf locked history (ok none) = (older : List Text) × (history ≡ locked ∷ older)
NextOf locked history (ok (some next)) = LiesBehind locked next history
NextOf locked history (err e) =
    (contains locked history ≡ false)
    × (e ≡ not_in_history (ltb max_first_parent_commits (length history)))

get_elem?-below :
    (locked : Text) (history : List Text)
    → contains locked history ≡ true
    → nat_eq (index_of locked history) 0 ≡ false
    → get_elem? history (index_of locked history - 1) ≢ none
unfolding index_of
get_elem?-below locked [] m n g = cc
get_elem?-below locked (c ∷ []) m n g = ground arith
get_elem?-below locked (c ∷ d ∷ ds) m n g = elim (Bool-cases (d == locked)) [
  | inl e ↦ ground arith
  | inr e ↦
      get_elem?-below locked (d ∷ ds) (ground arith) (ground arith)
        (ground (arith, get_elem?-pred c (d ∷ ds) (index_of locked (d ∷ ds))))
]

-- The next commit is the one right before the locked commit's first place in the newest-first history,
-- there is none exactly if the locked commit is the newest, and a history that does not hold the
-- locked commit is refused.
pub next_commit_lem :
    (locked : Text) (history : List Text) → NextOf locked history (next_commit locked history)
unfolding next_commit
next_commit_lem locked history = elim (Bool-cases (contains locked history)) [
  | inr absent ↦ rw absent (absent, refl)
  | inl m ↦ rw m (elim (Bool-cases (nat_eq (index_of locked history) 0)) [
    | inl z ↦ rw z (first_is_locked locked history m z)
    | inr n ↦ rw n (elim (Option-cases (get_elem? history (index_of locked history - 1))) [
      | inl g ↦ absurd (get_elem?-below locked history m n g)
      | inr (next, g) ↦ rw g (behind locked history next m n g)
    ])
  ])
]
