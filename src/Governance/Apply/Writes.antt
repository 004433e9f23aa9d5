-- ===== src/Governance/Apply/Writes.antt =====
-- `execute_apply`: which writes it makes.
use chat_chart.Base.{
  ◌++◌, List, [], ℕ, ◌≡◌, Bool-cases, Result-cases, ◌≢◌, err, ok, ◌∙◌, inl, inr, sym, refl, not,
  ◌∷◌, ap, ◌==◌, suc, ◌||◌, subst, Text, zero,
}
use chat_chart.Governance.Apply.{
  Remote, Outcome, applied, Round, check_back, verify_and_replan, replan, finish, apply_failure,
  raise_failure, attempt, apply_loop, stop, write_and_read, next, refused, Evidence, out_of_fuel,
  attempted_in, verify_action, write_succeeded, execute_apply, prepare, begin, enough, action,
  fail_with, crashed, replanning, read_back, FailedAction, verification, Phase, caught,
}
use chat_chart.Governance.Apply.{WriteOutcome, write_failure, could_not_run, exited, undecodable}
use chat_chart.Governance.Policy.{Policy}
use chat_chart.Governance.Actions.{ActionId, Action, ActionPlan, build_apply_actions}
use chat_chart.Governance.Settings.{M}
use chat_chart.Governance.Inventory.{Inventory}
use chat_chart.Governance.Compare.{Report, is_compliant, compare_governance}
use chat_chart.Governance.Apply.Loop.{Round-cases, apply_loop-Settled, begin-IsHead, begin-enough}
use chat_chart.Governance.Apply.Ends.{Settled}
use chat_chart.Governance.Errors.{PolicyError}

-- The same remote, with a log of the actions that were sent to it.
abbrev pub with_log : Remote → Remote
with_log G = record {
  State = G.State × List ActionId;
  write = λ a (s, log). let (o, s') = G.write a s in (o, (s', log ++ (a.id ∷ [])));
  discover = λ r b (s, log). let (found, s') = G.discover r b s in (found, (s', log));
}

-- The actions that an end accounts for.
abbrev pub attempted_of : Outcome → List ActionId
attempted_of (applied e) = e.attempted
attempted_of (apply_failure e) = e.attempted
attempted_of (crashed x e) = e.attempted
attempted_of (refused _) = []
attempted_of out_of_fuel = []

-- What a round has attempted.
abbrev tried_by : Round → List ActionId
tried_by (stop o) = attempted_of o
tried_by (next plan e) = e.attempted

attempted_of-fail_with :
    (x : PolicyError) (e : Evidence) (id : FailedAction) (phase : Phase)
    → attempted_of (fail_with x e id phase) ≡ e.attempted
unfolding fail_with raise_failure
attempted_of-fail_with x e id phase = elim (Bool-cases (caught x)) [
  | inl c ↦ rw c refl
  | inr u ↦ rw u refl
]

tried_by-replan :
    (policy : Policy) (a : Action) (e : Evidence) (updated : Inventory)
    → tried_by (replan policy a e updated) ≡ e.attempted
unfolding replan raise_failure
tried_by-replan policy a e updated = elim (Result-cases (build_apply_actions policy updated)) [
  | inr (x, c) ↦ rw (c, replan) (attempted_of-fail_with x e (action a.id) replanning)
  | inl (plan, c) ↦
      rw (c, replan)
        (elim (Bool-cases
          (not (plan.repository == e.repository) || not (plan.target_branch == e.target_branch))) [
            | inl moved ↦ rw moved refl
            | inr same ↦ rw same refl
          ])
]

tried_by-verify_and_replan :
    (policy : Policy) (a : Action) (e : Evidence) (updated : Inventory) (r : Report)
    → tried_by (verify_and_replan policy a e updated r) ≡ e.attempted
unfolding verify_and_replan raise_failure
tried_by-verify_and_replan policy a e updated r = elim (Bool-cases (verify_action a r)) [
  | inr n ↦ rw n refl
  | inl v ↦ rw v (
      tried_by-replan policy a (record e { after = r; verified = e.verified ++ (a.id ∷ []) })
        updated)
]

tried_by-check_back :
    (policy : Policy) (a : Action) (e : Evidence) (found : M Inventory)
    → tried_by (check_back policy a e found) ≡ e.attempted
unfolding check_back raise_failure
tried_by-check_back policy a e (err x) = attempted_of-fail_with x e (action a.id) read_back
tried_by-check_back policy a e (ok updated) =
    elim (Result-cases (compare_governance policy updated)) [
      | inr (x, c) ↦ rw (c, check_back) (attempted_of-fail_with x e (action a.id) verification)
      | inl (r, c) ↦ rw (c, check_back) (tried_by-verify_and_replan policy a e updated r)
    ]

attempted_of-finish : (e : Evidence) → attempted_of (finish e) ≡ e.attempted
unfolding finish raise_failure
attempted_of-finish e = elim (Bool-cases (is_compliant e.after.status)) [
  | inl c ↦ rw c refl
  | inr n ↦ rw n refl
]

attempted_of-write_failure :
    (o : WriteOutcome) (e : Evidence) (id : ActionId)
    → attempted_of (write_failure o e id) ≡ e.attempted
unfolding write_failure raise_failure
attempted_of-write_failure could_not_run e id = refl
attempted_of-write_failure (exited n) e id = refl
attempted_of-write_failure undecodable e id = refl

begin_empty : (plan : ActionPlan) (before : Report) → [] ≡ (begin plan before).attempted
unfolding begin
begin_empty plan before = refl

module _ (policy : Policy) (G : Remote) where
  attempt-log :
      (plan : ActionPlan) (a : Action) (e : Evidence) (s : G.State × List ActionId)
      → s.1 ≡ e.attempted
      → (attempt policy (with_log G) plan a e s).1.1
        ≡ tried_by (attempt policy (with_log G) plan a e s).0
  unfolding attempt write_and_read raise_failure
  attempt-log plan a e s h = elim (Bool-cases (attempted_in a.id e.attempted)) [
    | inl again ↦ rw again h
    | inr fresh ↦ rw fresh (elim (Bool-cases (write_succeeded (G.write a s.0).0)) [
      | inr w ↦
          rw w (
            ap (λ l. l ++ (a.id ∷ [])) h
            ∙ sym (attempted_of-write_failure (G.write a s.0).0 _ a.id))
      | inl w ↦ rw w (
          ap (λ l. l ++ (a.id ∷ [])) h
          ∙ sym (
              tried_by-check_back policy a (record e { attempted = e.attempted ++ (a.id ∷ []) }) _))
    ])
  ]

  apply_loop-log :
      (fuel : ℕ) (plan : ActionPlan) (actions : List Action) (e : Evidence)
      (s : G.State × List ActionId)
      → s.1 ≡ e.attempted
      → (apply_loop policy (with_log G) fuel plan actions e s).0 ≢ out_of_fuel
      → (apply_loop policy (with_log G) fuel plan actions e s).1.1
        ≡ attempted_of (apply_loop policy (with_log G) fuel plan actions e s).0
  unfolding apply_loop
  apply_loop-log fuel plan [] e s h = λ n. h ∙ sym (attempted_of-finish e)
  apply_loop-log zero plan (a ∷ rest) e s h = λ n. absurd (n refl)
  apply_loop-log (suc fuel) plan (a ∷ rest) e s h =
      let logged = attempt-log plan a e s h in
      elim (Round-cases (attempt policy (with_log G) plan a e s).0) [
        | inl (o, r) ↦
            let known =
              subst (λ t. (attempt policy (with_log G) plan a e s).1.1 ≡ tried_by t) r logged in
            rw (r, apply_loop) (λ _. known)
        | inr (plan', e', r) ↦
            let known =
              subst (λ t. (attempt policy (with_log G) plan a e s).1.1 ≡ tried_by t) r logged in
            rw (r, apply_loop) (apply_loop-log fuel plan' plan'.actions e' _ known)
      ]

  -- The writes that `execute_apply` sends are exactly the actions that its evidence lists as attempted
  -- when it ends, in their order. It sends none if it refuses to begin.
  pub execute_apply-log :
      (inventory : Inventory) (confirmed : Text) (s : G.State)
      → (execute_apply policy (with_log G) inventory confirmed (s, [])).1.1
        ≡ attempted_of (execute_apply policy (with_log G) inventory confirmed (s, [])).0
  unfolding execute_apply
  execute_apply-log inventory confirmed s =
      elim (Result-cases (prepare policy inventory confirmed)) [
        | inr (x, c) ↦ rw (c, execute_apply) refl
        | inl (both, c) ↦
            let settled =
              apply_loop-Settled policy (with_log G) enough both.0 both.0.actions
                (begin both.0 both.1) (s, []) (begin-IsHead both.0 both.1)
                (begin-enough both.0 both.1) in
            rw (c, execute_apply)
              (apply_loop-log enough both.0 both.0.actions (begin both.0 both.1) (s, [])
                (begin_empty both.0 both.1) (λ e. subst Settled e settled))
      ]
