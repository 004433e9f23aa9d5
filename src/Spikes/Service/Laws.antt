-- ===== src/Spikes/Service/Laws.antt =====
-- What a statement keeps and returns, and how the loop over the questions goes on.
use chat_chart.Base.{
  ◌≡◌, refl, ap, subst, List, ◌∷◌, Result, ok, err, >>=-eq-ok, Text, ok-injective, rethrow-eq-ok,
}
use chat_chart.Spikes.Service.{Raised}
use chat_chart.Spikes.Rows.{Values, RunError}
use chat_chart.Spikes.Service.{go_on, World, run_statement}

module _ {V : Values} {E : Type 0} (W : World V) (told : Raised → E) (rejected : Text → E) where
  pub run_statement-keeps :
      (Safe : Text → Type 0) (P : W.State → Type 0)
      (query_keeps : (s : Text) (w : W.State) → Safe s → P w → P (W.query s w).0)
      (g : Result Text Text) (w : W.State)
      → ((s : Text) → g ≡ ok s → Safe s)
      → P w
      → P (run_statement W told rejected g w).0
  unfolding run_statement
  run_statement-keeps Safe P query_keeps (err e) w safe p = p
  run_statement-keeps Safe P query_keeps (ok s) w safe p = query_keeps s w (safe s refl) p

  pub run_statement-ok :
      (g : Result Text Text) (w : W.State) {rows : List (List V.Value)}
      → (run_statement W told rejected g w).1 ≡ ok rows
      → (s : Text) × (g ≡ ok s) × ((W.query s w).1 ≡ ok rows)
  unfolding run_statement
  run_statement-ok (err e) w h = cc
  run_statement-ok (ok s) w h = (s, refl, rethrow-eq-ok _ (W.query s w).1 h)

  pub statement_state :
      (s : Text) (w : W.State) {g : Result Text Text}
      → g ≡ ok s
      → (run_statement W told rejected g w).0 ≡ (W.query s w).0
  unfolding run_statement
  statement_state s w e = rw e refl

  pub statement_rows :
      (s : Text) (w : W.State) {rows : List (List V.Value)} {g : Result Text Text}
      → g ≡ ok s
      → (W.query s w).1 ≡ ok rows
      → (run_statement W told rejected g w).1 ≡ ok rows
  unfolding run_statement
  statement_rows s w e f = rw (e, f) refl

module _ {State : Type 0} {Outcome : Type 0} {Total : Type 0} where
  pub go_on-keeps :
      (P : State → Type 0) (r : Result RunError (Outcome × Total))
      (rest : Total → State × Result RunError (List Outcome × Total)) (w : State)
      → ((total : Total) → P (rest total).0)
      → P w
      → P (go_on r rest w).0
  unfolding go_on
  go_on-keeps P (err e) rest w f p = p
  go_on-keeps P (ok (o, total)) rest w f p = f total

  pub go_on-ok :
      (r : Result RunError (Outcome × Total))
      (rest : Total → State × Result RunError (List Outcome × Total)) (w : State)
      {os : List Outcome} {total : Total}
      → (go_on r rest w).1 ≡ ok (os, total)
      → (o : Outcome) × (n : Total) × (more : List Outcome) × (r ≡ ok (o, n))
        × ((rest n).1 ≡ ok (more, total))
        × (o ∷ more ≡ os)
  unfolding go_on
  go_on-ok (err e) rest w h = cc
  go_on-ok (ok (o, n)) rest w {os} {total} h =
      let ((more, total1), e, f) = >>=-eq-ok (rest n).1 _ h in
      let same = ok-injective f in
      (
        o,
        n,
        more,
        refl,
        subst (λ m. (rest n).1 ≡ ok (more, m)) (ap (λ x. x.1) same) e,
        ap (λ x. x.0) same,
      )
