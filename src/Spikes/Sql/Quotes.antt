-- ===== src/Spikes/Sql/Quotes.antt =====
-- What `re.sub(r"'[^']*'", "", s)` leaves of a statement.
use chat_chart.Base.{
  ℕ, ◌≡◌, refl, ap, ◌∙◌, Bool, true, false, not, [], ◌∷◌, ◌++◌, arith, if◌then◌else◌, Text, char_in,
  append-nil, nat_eq, append_assoc, ◌⊎◌, length, ◌↔◌, inl, ◌≤◌, subst, suc, ◌<◌, inr, sym,
  Bool-cases, zero, nat_eq_iff, length-append,
}
use chat_chart.Spikes.Sql.{without_quotes_from, outside, inside, without_quotes}

abbrev no_quote : Text → Bool
no_quote s = not (char_in 39 s)

outside_end : (a : Text) → no_quote a ≡ true → without_quotes_from outside a ≡ a
unfolding without_quotes_from
outside_end [] h = refl
outside_end (c ∷ a) h = ground (arith, outside_end a)

outside_on :
    (a s : Text)
    → no_quote a ≡ true
    → without_quotes_from outside (a ++ s) ≡ a ++ without_quotes_from outside s
unfolding without_quotes_from
outside_on [] s h = refl
outside_on (c ∷ a) s h = ground (arith, outside_on a s)

inside_end :
    (held a : Text) → no_quote a ≡ true → without_quotes_from (inside held) a ≡ 39 ∷ (held ++ a)
unfolding without_quotes_from
inside_end held [] h = rw (append-nil held) refl
inside_end held (c ∷ a) h = next_kept held c a (ground arith) (
    inside_end (held ++ (c ∷ [])) a (ground arith)
    ∙ ap (λ t. 39 ∷ t) (append_assoc held (c ∷ []) a))
  where
    next_kept :
        (held : Text) (c : ℕ) (a : Text)
        → nat_eq c 39 ≡ false
        → without_quotes_from (inside (held ++ (c ∷ []))) a ≡ 39 ∷ (held ++ (c ∷ a))
        → without_quotes_from (if nat_eq c 39 then outside else inside (held ++ (c ∷ []))) a
          ≡ 39 ∷ (held ++ (c ∷ a))
    next_kept held c a h e = rw h e

inside_on :
    (held a s : Text)
    → no_quote a ≡ true
    → without_quotes_from (inside held) (a ++ (39 ∷ s)) ≡ without_quotes_from outside s
unfolding without_quotes_from
inside_on held [] s h = refl
inside_on held (c ∷ a) s h = ground (arith, inside_on (held ++ (c ∷ [])) a s)

-- What `re.sub` says: each quoted part, from a quote to the next one, goes; the last quote stays where no other
-- follows it.
pub data Removes : Text → Text → Type 0 where
  plain : (a : Text) → no_quote a ≡ true → Removes a a
  unclosed :
      (a b : Text) → no_quote a ≡ true → no_quote b ≡ true → Removes (a ++ (39 ∷ b)) (a ++ (39 ∷ b))
  quoted_part :
      (a b : Text) {s t : Text}
      → no_quote a ≡ true
      → no_quote b ≡ true
      → Removes s t
      → Removes (a ++ (39 ∷ (b ++ (39 ∷ s)))) (a ++ t)

Removes-without_quotes : {s t : Text} → Removes s t → without_quotes s ≡ t
unfolding without_quotes
Removes-without_quotes (plain a h) = outside_end a h
Removes-without_quotes (unclosed a b h k) =
    outside_on a (39 ∷ b) h ∙ ap (λ t. a ++ t) (inside_end [] b k)
Removes-without_quotes (quoted_part a b {s} {t} h k r) =
    outside_on a (39 ∷ (b ++ (39 ∷ s))) h
    ∙ ap (λ u. a ++ u) (inside_on [] b s k ∙ Removes-without_quotes r)

-- Where the first quote is.
first_quote :
    (s : Text)
    → (no_quote s ≡ true) ⊎ ((a : Text) × (r : Text) × (s ≡ a ++ (39 ∷ r)) × (no_quote a ≡ true))
first_quote [] = inl refl
first_quote (c ∷ s) = elim (Bool-cases (nat_eq 39 c)) [
  | inl e ↦ inr ([], s, ap (λ d. d ∷ s) (sym ((nat_eq_iff 39 c).0 e)), refl)
  | inr e ↦ later e (first_quote s)
]
  where
    later :
        nat_eq 39 c ≡ false
        → (no_quote s ≡ true)
          ⊎ ((a : Text) × (r : Text) × (s ≡ a ++ (39 ∷ r)) × (no_quote a ≡ true))
        → (no_quote (c ∷ s) ≡ true)
          ⊎ ((a : Text) × (r : Text) × (c ∷ s ≡ a ++ (39 ∷ r)) × (no_quote a ≡ true))
    later e (inl h) = inl (ground arith)
    later e (inr (a, r, p, q)) = inr (c ∷ a, r, ap (λ x. c ∷ x) p, ground arith)

parts_step :
    (s : Text)
    → ((r : Text) → length r < length s → (t : Text) × Removes r t)
    → (t : Text) × Removes s t
parts_step s rec = at_first (first_quote s)
  where
    at_second :
        (a : Text) (r : Text)
        → s ≡ a ++ (39 ∷ r)
        → no_quote a ≡ true
        → (no_quote r ≡ true)
          ⊎ ((b : Text) × (u : Text) × (r ≡ b ++ (39 ∷ u)) × (no_quote b ≡ true))
        → (t : Text) × Removes s t
    at_second a r e h (inl k) =
        (a ++ (39 ∷ r), subst (λ x. Removes x (a ++ (39 ∷ r))) (sym e) (unclosed a r h k))
    at_second a r e h (inr (b, u, f, k)) =
        let whole : s ≡ a ++ (39 ∷ (b ++ (39 ∷ u))) = e ∙ ap (λ x. a ++ (39 ∷ x)) f in
        let (t, p) = rec u (
          rw (whole, length-append a (39 ∷ (b ++ (39 ∷ u))), length-append b (39 ∷ u))
            (omega arith)) in
        (a ++ t, subst (λ x. Removes x (a ++ t)) (sym whole) (quoted_part a b h k p))

    at_first :
        (no_quote s ≡ true) ⊎ ((a : Text) × (r : Text) × (s ≡ a ++ (39 ∷ r)) × (no_quote a ≡ true))
        → (t : Text) × Removes s t
    at_first (inl h) = (s, plain s h)
    at_first (inr (a, r, e, h)) = at_second a r e h (first_quote r)

parts : (n : ℕ) (s : Text) → length s ≤ n → (t : Text) × Removes s t
parts zero s h = parts_step s (λ r f. absurd (omega arith))
parts (suc n) s h = parts_step s (λ r f. parts n r (omega arith))

-- The statement without its quoted parts is exactly what the pattern '[^']*' says: the text between quotes goes, from
-- the left, and a last quote without a partner stays.
pub without_quotes-Removes : (s t : Text) → (without_quotes s ≡ t) ↔ Removes s t
without_quotes-Removes s t = (found, Removes-without_quotes)
  where
    found : without_quotes s ≡ t → Removes s t
    found e =
        let (u, p) = parts (length s) s (omega arith) in
        subst (Removes s) (sym (Removes-without_quotes p) ∙ e) p
