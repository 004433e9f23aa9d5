-- ===== src/Governance/Apply/Ends.antt =====
-- `execute_apply`: it ends, and its evidence tells what it did.
use chat_chart.Base.{
  ◌≡◌, refl, ◌∙◌, ◌⊎◌, false, List, [], ◌∷◌, ◌++◌, arith, true, inr, ap, err, Bool-cases, inl, sym,
  ok, Result-cases, not, ◌==◌, ◌||◌,
}
use chat_chart.Governance.Apply.{
  Outcome, Evidence, attempted_in, Round, applied, FailedAction, stop, Phase, compliant_evidence,
  apply_failure, next, refused, failed, out_of_fuel, raise_failure, finish, check_back, action,
  replan, verify_and_replan, replanning, read_back, verify_action, final_audit, verification,
  Remote, attempt, write_and_read, write_succeeded, write_phase, fail_with, crashed, caught,
}
use chat_chart.Governance.Apply.{WriteOutcome, write_failure, could_not_run, exited, undecodable}
use chat_chart.Governance.Actions.{ActionId, Action, build_apply_actions, ActionPlan}
use chat_chart.Governance.Apply.Rounds.{attempted_in-append, action_eq_sym}
use chat_chart.Governance.Compare.{compliant, Status, is_compliant, Report, compare_governance}
use chat_chart.Governance.Policy.{Policy}
use chat_chart.Governance.Settings.{M}
use chat_chart.Governance.Inventory.{Inventory}
use chat_chart.Governance.Errors.{PolicyError}

-- No action is listed twice.
abbrev pub AreDistinct : List ActionId → Type 0
AreDistinct [] = Unit
AreDistinct (a ∷ rest) = (attempted_in a rest ≡ false) × AreDistinct rest

-- At the head of the loop every attempted action is verified.
pub record IsHead (e : Evidence) : Type 0 where
  pub all_verified : e.attempted ≡ e.verified
  pub distinct : AreDistinct e.attempted

-- The evidence of a failure: at most the last attempted action is not verified.
pub record IsFailure (e : Evidence) : Type 0 where
  pub failing : (id : FailedAction) × (phase : Phase) × (e.status ≡ failed id phase)
  pub last : (e.attempted ≡ e.verified) ⊎ ((a : ActionId) × (e.attempted ≡ e.verified ++ (a ∷ [])))
  pub distinct : AreDistinct e.attempted

pub record IsSuccess (e : Evidence) : Type 0 where
  pub audited : e.after.status ≡ compliant
  pub marked : e.status ≡ compliant_evidence
  pub all_verified : e.attempted ≡ e.verified
  pub distinct : AreDistinct e.attempted

-- The evidence that is lost with an exception that no handler catches.
pub record IsCrash (x : PolicyError) (e : Evidence) : Type 0 where
  pub uncaught : caught x ≡ false
  pub last : (e.attempted ≡ e.verified) ⊎ ((a : ActionId) × (e.attempted ≡ e.verified ++ (a ∷ [])))
  pub distinct : AreDistinct e.attempted

-- What an end of the loop promises.
abbrev pub Settled : Outcome → Type 0
Settled (applied e) = IsSuccess e
Settled (apply_failure e) = IsFailure e
Settled (crashed x e) = IsCrash x e
Settled (refused _) = ⊥
Settled out_of_fuel = ⊥

abbrev pub RoundSettled : List ActionId → ActionId → Round → Type 0
RoundSettled before a (stop outcome) = Settled outcome
RoundSettled before a (next plan e) = IsHead e × (e.attempted ≡ before ++ (a ∷ []))

AreDistinct-snoc :
    (xs : List ActionId) (a : ActionId)
    → AreDistinct xs
    → attempted_in a xs ≡ false
    → AreDistinct (xs ++ (a ∷ []))
unfolding attempted_in
AreDistinct-snoc [] a d h = (refl, tt)
AreDistinct-snoc (x ∷ xs) a d h = (
  attempted_in-append x a xs ∙ ground (arith, action_eq_sym a x),
  AreDistinct-snoc xs a d.1 (ground arith),
)

pub settle_failure :
    (e : Evidence) (id : FailedAction) (phase : Phase)
    → (e.attempted ≡ e.verified) ⊎ ((a : ActionId) × (e.attempted ≡ e.verified ++ (a ∷ [])))
    → AreDistinct e.attempted
    → Settled (raise_failure e id phase)
unfolding raise_failure
settle_failure e id phase last distinct = record {
  failing = (id, phase, refl);
  last = last;
  distinct = distinct;
}

pub settle_exception :
    (x : PolicyError) (e : Evidence) (id : FailedAction) (phase : Phase)
    → (e.attempted ≡ e.verified) ⊎ ((a : ActionId) × (e.attempted ≡ e.verified ++ (a ∷ [])))
    → AreDistinct e.attempted
    → Settled (fail_with x e id phase)
unfolding fail_with
settle_exception x e id phase last distinct = elim (Bool-cases (caught x)) [
  | inl c ↦ rw c (settle_failure e id phase last distinct)
  | inr u ↦ rw u (record { uncaught = u; last = last; distinct = distinct })
]

pub finish-Settled : (e : Evidence) → IsHead e → Settled (finish e)
unfolding finish
finish-Settled e h = elim (Bool-cases (is_compliant e.after.status)) [
  | inl c ↦ rw c (record {
    audited = compliant_of e.after.status c;
    marked = refl;
    all_verified = h.all_verified;
    distinct = h.distinct;
  })
  | inr n ↦ rw n (settle_failure e final_audit verification (inl h.all_verified) h.distinct)
]
  where
    compliant_of : (s : Status) → is_compliant s ≡ true → s ≡ compliant
    compliant_of s c = ground arith

-- An action that was attempted behind `before`, and is not verified.
pub record IsTried (before : List ActionId) (a : ActionId) (e : Evidence) : Type 0 where
  pub tried : e.attempted ≡ before ++ (a ∷ [])
  pub verified_before : e.verified ≡ before
  pub distinct : AreDistinct e.attempted

module _ (policy : Policy) (a : Action) (before : List ActionId) where
  last_tried :
      (e : Evidence)
      → IsTried before a.id e
      → (e.attempted ≡ e.verified) ⊎ ((b : ActionId) × (e.attempted ≡ e.verified ++ (b ∷ [])))
  last_tried e t = inr (a.id, t.tried ∙ ap (λ v. v ++ (a.id ∷ [])) (sym t.verified_before))

  unverified :
      (e : Evidence) (phase : Phase)
      → IsTried before a.id e
      → Settled (raise_failure e (action a.id) phase)
  unverified e phase t = settle_failure e (action a.id) phase (last_tried e t) t.distinct

  unwritten :
      (o : WriteOutcome) (e : Evidence) → IsTried before a.id e → Settled (write_failure o e a.id)
  unfolding write_failure caught
  unwritten could_not_run e t = unverified e write_phase t
  unwritten (exited n) e t = unverified e write_phase t
  unwritten undecodable e t = record {
    uncaught = refl;
    last = last_tried e t;
    distinct = t.distinct;
  }

  uncompared :
      (x : PolicyError) (e : Evidence) (phase : Phase)
      → IsTried before a.id e
      → Settled (fail_with x e (action a.id) phase)
  uncompared x e phase t = settle_exception x e (action a.id) phase (last_tried e t) t.distinct

  replan-RoundSettled :
      (e : Evidence) (updated : Inventory)
      → IsHead e
      → e.attempted ≡ before ++ (a.id ∷ [])
      → RoundSettled before a.id (replan policy a e updated)
  unfolding replan
  replan-RoundSettled e updated h t =
      let failure = settle_failure e (action a.id) replanning (inl h.all_verified) h.distinct in
      elim (Result-cases (build_apply_actions policy updated)) [
        | inr (x, c) ↦
            rw (c, replan)
              (settle_exception x e (action a.id) replanning (inl h.all_verified) h.distinct)
        | inl (plan, c) ↦
            rw (c, replan)
              (elim (Bool-cases (
                not (plan.repository == e.repository)
                || not (plan.target_branch == e.target_branch))) [
                  | inl moved ↦ rw moved failure
                  | inr same ↦ rw same (h, t)
                ])
      ]

  verify-RoundSettled :
      (e : Evidence) (updated : Inventory) (r : Report)
      → IsTried before a.id e
      → RoundSettled before a.id (verify_and_replan policy a e updated r)
  unfolding verify_and_replan
  verify-RoundSettled e updated r t = elim (Bool-cases (verify_action a r)) [
    | inr n ↦ rw n (
        unverified (record e { after = r }) verification
          (record { tried = t.tried; verified_before = t.verified_before; distinct = t.distinct }))
    | inl v ↦ rw v (
        replan-RoundSettled (record e { after = r; verified = e.verified ++ (a.id ∷ []) }) updated
          (record {
            all_verified = t.tried ∙ ap (λ v. v ++ (a.id ∷ [])) (sym t.verified_before);
            distinct = t.distinct;
          })
          t.tried)
  ]

  pub check_back-RoundSettled :
      (e : Evidence) (found : M Inventory)
      → IsTried before a.id e
      → RoundSettled before a.id (check_back policy a e found)
  unfolding check_back
  check_back-RoundSettled e (err x) t = uncompared x e read_back t
  check_back-RoundSettled e (ok updated) t =
      elim (Result-cases (compare_governance policy updated)) [
        | inr (x, c) ↦ rw (c, check_back) (uncompared x e verification t)
        | inl (r, c) ↦ rw (c, check_back) (verify-RoundSettled e updated r t)
      ]

  module _ (G : Remote) where
    pub attempt-RoundSettled :
        (plan : ActionPlan) (e : Evidence) (s : G.State)
        → e.attempted ≡ before
        → IsHead e
        → RoundSettled before a.id (attempt policy G plan a e s).0
    unfolding attempt write_and_read
    attempt-RoundSettled plan e s b h = elim (Bool-cases (attempted_in a.id e.attempted)) [
      | inl again ↦
          rw again (settle_failure e (action a.id) replanning (inl h.all_verified) h.distinct)
      | inr fresh ↦ rw fresh (wrote fresh (Bool-cases (write_succeeded (G.write a s).0)))
    ]
      where
        tried : Evidence
        tried = record e { attempted = e.attempted ++ (a.id ∷ []) }

        is_tried : attempted_in a.id e.attempted ≡ false → IsTried before a.id tried
        is_tried fresh = record {
          tried = ap (λ v. v ++ (a.id ∷ [])) b;
          verified_before = sym h.all_verified ∙ b;
          distinct = AreDistinct-snoc e.attempted a.id h.distinct fresh;
        }

        wrote :
            attempted_in a.id e.attempted ≡ false
            → (write_succeeded (G.write a s).0 ≡ true) ⊎ (write_succeeded (G.write a s).0 ≡ false)
            → RoundSettled before a.id (write_and_read policy G plan a tried s).0
        wrote fresh (inl w) = rw w (check_back-RoundSettled tried _ (is_tried fresh))
        wrote fresh (inr w) = rw w (unwritten (G.write a s).0 tried (is_tried fresh))
