-- ===== src/Governance/Apply/Loop.antt =====
-- `execute_apply`: the whole loop.
use chat_chart.Base.{
  ℕ, zero, suc, ◌<◌, ◌≡◌, refl, sym, subst, ◌⊎◌, inl, inr, false, List, [], ◌∷◌, ◌++◌, arith, Text,
  Result-cases, err,
}
use chat_chart.Governance.Apply.{
  Round, execute_apply, attempted_in, Outcome, stop, refused, Remote, apply_loop, applied,
  apply_failure, Evidence, next, out_of_fuel, attempt, begin, prepare, enough, crashed,
}
use chat_chart.Governance.Policy.{Policy}
use chat_chart.Governance.Actions.{ActionId, ActionPlan, Action}
use chat_chart.Governance.Apply.Ends.{
  Settled, AreDistinct, IsHead, finish-Settled, attempt-RoundSettled, RoundSettled,
}
use chat_chart.Governance.Inventory.{Inventory}
use chat_chart.Governance.Apply.Rounds.{
  attempted_in-append, action_eq_sym, remaining, remaining-decreases, remaining-start,
}
use chat_chart.Governance.Compare.{Report}

AreDistinct-last :
    (xs : List ActionId) (a : ActionId) → AreDistinct (xs ++ (a ∷ [])) → attempted_in a xs ≡ false
unfolding attempted_in
AreDistinct-last [] a d = refl
AreDistinct-last (x ∷ xs) a d =
    ground (arith, attempted_in-append x a xs, action_eq_sym a x, AreDistinct-last xs a d.1)

pub Round-cases :
    (r : Round)
    → ((o : Outcome) × (r ≡ stop o)) ⊎ ((p : ActionPlan) × (e : Evidence) × (r ≡ next p e))
Round-cases (stop o) = inl (o, refl)
Round-cases (next p e) = inr (p, e, refl)

module _ (policy : Policy) (G : Remote) where
  -- With more rounds than actions that were not attempted the loop ends as it should.
  pub apply_loop-Settled :
      (fuel : ℕ) (plan : ActionPlan) (actions : List Action) (e : Evidence) (s : G.State)
      → IsHead e
      → remaining e.attempted < fuel
      → Settled (apply_loop policy G fuel plan actions e s).0
  unfolding apply_loop
  apply_loop-Settled fuel plan [] e s h m = finish-Settled e h
  apply_loop-Settled zero plan (a ∷ rest) e s h m = absurd (omega arith)
  apply_loop-Settled (suc fuel) plan (a ∷ rest) e s h m =
      let settled = attempt-RoundSettled policy a e.attempted G plan e s refl h in
      elim (Round-cases (attempt policy G plan a e s).0) [
        | inl (o, r) ↦
            let end : Settled o = subst (RoundSettled e.attempted a.id) r settled in
            rw (r, apply_loop) end
        | inr (plan', e', r) ↦
            let (head, tried) = subst (RoundSettled e.attempted a.id) r settled in
            let fresh = AreDistinct-last e.attempted a.id (subst AreDistinct tried head.distinct) in
            let less = remaining-decreases a.id e.attempted fresh in
            rw (r, apply_loop)
              (apply_loop-Settled fuel plan' plan'.actions e' _ head
                (subst (λ l. remaining l < fuel) (sym tried) (omega arith)))
      ]

-- How a run from the state `s` ends: it refuses before the loop, by the exception that the preparation
-- raised and without a change, or the loop ends as it should.
abbrev pub Ends :
    (policy : Policy) (G : Remote) → Inventory → Text → (s : G.State) → Outcome → G.State → Type 0
Ends policy G inventory confirmed s (refused x) t =
    (prepare policy inventory confirmed ≡ err x) × (t ≡ s)
Ends policy G inventory confirmed s (applied e) t = Settled (applied e)
Ends policy G inventory confirmed s (apply_failure e) t = Settled (apply_failure e)
Ends policy G inventory confirmed s (crashed x e) t = Settled (crashed x e)
Ends policy G inventory confirmed s out_of_fuel t = ⊥

Settled→Ends :
    (policy : Policy) (G : Remote) (inventory : Inventory) (confirmed : Text) (s : G.State)
    (o : Outcome) (t : G.State)
    → Settled o
    → Ends policy G inventory confirmed s o t
Settled→Ends policy G inventory confirmed s (applied e) t h = h
Settled→Ends policy G inventory confirmed s (apply_failure e) t h = h
Settled→Ends policy G inventory confirmed s (refused x) t h = absurd h
Settled→Ends policy G inventory confirmed s (crashed x e) t h = h
Settled→Ends policy G inventory confirmed s out_of_fuel t h = h

pub begin-IsHead : (plan : ActionPlan) (before : Report) → IsHead (begin plan before)
unfolding begin
begin-IsHead plan before = record { all_verified = refl; distinct = tt }

pub begin-enough :
    (plan : ActionPlan) (before : Report) → remaining (begin plan before).attempted < enough
unfolding begin
begin-enough plan before = omega (arith, remaining-start)

-- `execute_apply` always ends, in one of four ways. It refuses only by an exception that was raised before the
-- first write, and then it leaves the remote as it was. A run that succeeds has read back a compliant state,
-- and has verified every action that it attempted, none of them twice. A run that fails has evidence that
-- names the action or the final audit and the phase, and has verified all that it attempted but at most the
-- last. So has a run that ends by an exception behind a write, which then is no `PolicyError`.
pub execute_apply-Ends :
    (policy : Policy) (G : Remote) (inventory : Inventory) (confirmed : Text) (s : G.State)
    → Ends policy G inventory confirmed s
        (execute_apply policy G inventory confirmed s).0
        (execute_apply policy G inventory confirmed s).1
unfolding execute_apply
execute_apply-Ends policy G inventory confirmed s =
    elim (Result-cases (prepare policy inventory confirmed)) [
      | inr (x, c) ↦ rw (c, execute_apply) (c, refl)
      | inl (both, c) ↦
          rw (c, execute_apply)
            (Settled→Ends policy G inventory confirmed s _ _ (
              apply_loop-Settled policy G enough both.0 both.0.actions (begin both.0 both.1) s
                (begin-IsHead both.0 both.1) (begin-enough both.0 both.1)))
    ]
