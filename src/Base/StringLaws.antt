-- ===== src/Base/StringLaws.antt =====
-- Laws of the text operations.
use Prim.Native.Nat.{ℕ}
use mathlib.Core.Path.{◌≡◌, refl}
use mathlib.Core.Logic.{◌⊎◌, inl, inr, ◌≢◌}
use mathlib.Core.Bool.{true}
use mathlib.Core.List.{List, [], ◌∷◌, ◌++◌}
use native.Mathlib.Omega.{arith}
use chat_chart.Base.Tests.{nat_eq}
use chat_chart.Base.Strings.{Text, starts_with, split, split_step, join}

pub starts_with_refl : (s : Text) → starts_with s s ≡ true
unfolding starts_with
starts_with_refl [] = refl
starts_with_refl (c ∷ s) = ground (arith, starts_with_refl s)

pub starts_with-append : (s t : Text) → starts_with (s ++ t) s ≡ true
unfolding starts_with
starts_with-append [] [] = refl
starts_with-append [] (d ∷ t) = refl
starts_with-append (c ∷ s) t = ground (arith, starts_with-append s t)

pub starts_with_trans :
    (a b c : Text) → starts_with a b ≡ true → starts_with b c ≡ true → starts_with a c ≡ true
unfolding starts_with
starts_with_trans [] b [] h k = refl
starts_with_trans (x ∷ a) b [] h k = refl
starts_with_trans [] [] (z ∷ c) h k = k
starts_with_trans [] (y ∷ b) (z ∷ c) h k = cc
starts_with_trans (x ∷ a) [] (z ∷ c) h k = cc
starts_with_trans (x ∷ a) (y ∷ b) (z ∷ c) h k = ground (arith, starts_with_trans a b c)

-- Two prefixes of one text are prefixes of one another.
pub starts_with_comparable :
    (p a b : Text)
    → starts_with p a ≡ true
    → starts_with p b ≡ true
    → (starts_with a b ≡ true) ⊎ (starts_with b a ≡ true)
unfolding starts_with
starts_with_comparable p [] [] h k = inl refl
starts_with_comparable p [] (y ∷ b) h k = inr refl
starts_with_comparable p (x ∷ a) [] h k = inl refl
starts_with_comparable [] (x ∷ a) (y ∷ b) h k = cc
starts_with_comparable (z ∷ p) (x ∷ a) (y ∷ b) h k = ground (arith, starts_with_comparable p a b)

pub starts_with-eq_append : (s t : Text) → starts_with s t ≡ true → (r : Text) × (s ≡ t ++ r)
unfolding starts_with
starts_with-eq_append s [] h = (s, refl)
starts_with-eq_append [] (d ∷ t) h = cc
starts_with-eq_append (c ∷ s) (d ∷ t) h =
    let (r, e) = starts_with-eq_append s t (ground arith) in (r, ground arith)

split-nonempty : (sep : ℕ) (s : Text) → split sep s ≢ []
unfolding split
split-nonempty sep [] h = cc
split-nonempty sep (c ∷ s) h = ground arith

join-split_step :
    (sep c : ℕ) (p : Text) (ps : List Text)
    → join sep (split_step (nat_eq c sep) c (p ∷ ps)) ≡ c ∷ join sep (p ∷ ps)
unfolding split join
join-split_step sep c p [] = ground arith
join-split_step sep c p (q ∷ ps) = ground arith
