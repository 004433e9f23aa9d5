-- ===== src/Inheritance/Ownership/Overlap.antt =====
-- `_overlaps`, `_reject_overlaps` and `_covers` against what the roots own.
use chat_chart.Base.{
  any, keep_if, Text, List, ◌≡◌, false, true, ok, arith, ◌≤◌, ◌↔◌, ◌⊎◌, inl, ◌∷◌,
  starts_with_comparable, length, keep_if-is_empty, inr, [], refl, Bool-cases,
}
use chat_chart.Inheritance.Ownership.{reject_overlaps, covers, overlaps, reject_overlap}

-- Some path lies under both roots.
abbrev pub Shared : Text → Text → Type 0
Shared a b = (p : Text) × (covers a p ≡ true) × (covers b p ≡ true)

pub covers_refl : (a : Text) → covers a a ≡ true
unfolding covers
covers_refl a = ground arith

pub overlaps_sym : (a b : Text) → overlaps a b ≡ overlaps b a
unfolding overlaps
overlaps_sym a b = ground arith

-- A root that overlaps another and is no file under it covers it.
overlaps_cover : (a b : Text) → overlaps a b ≡ true → (covers a b ≡ true) ⊎ (covers b a ≡ true)
unfolding overlaps covers
overlaps_cover a b h = ground arith

pub overlaps→Shared : (a b : Text) → overlaps a b ≡ true → Shared a b
overlaps→Shared a b h = elim (overlaps_cover a b h) [
  | inl c ↦ (b, c, covers_refl b)
  | inr c ↦ (a, covers_refl a, c)
]

pub covers→overlaps : (a b p : Text) → covers a p ≡ true → covers b p ≡ true → overlaps a b ≡ true
unfolding overlaps covers
covers→overlaps a b p h k = ground (arith, starts_with_comparable p a b)

-- Two roots overlap exactly when some path lies under both.
pub overlaps_iff : (a b : Text) → (overlaps a b ≡ true) ↔ Shared a b
overlaps_iff a b = (overlaps→Shared a b, λ (p, h, k). covers→overlaps a b p h k)

-- The roots that own a path.
abbrev pub owners : Text → List Text → List Text
owners p roots = keep_if (λ root. covers root p) roots

any-covers→any-overlaps :
    (a p : Text) (roots : List Text)
    → covers a p ≡ true
    → any (λ root. covers root p) roots ≡ true
    → any (overlaps a) roots ≡ true
any-covers→any-overlaps a p [] h k = k
any-covers→any-overlaps a p (r ∷ rs) h k =
    ground (arith, any-covers→any-overlaps a p rs h, covers→overlaps a r p h)

pub reject_overlap-eq-ok :
    (a : Text) (roots : List Text) → reject_overlap a roots ≡ ok tt → any (overlaps a) roots ≡ false
unfolding reject_overlap
reject_overlap-eq-ok a [] h = refl
reject_overlap-eq-ok a (r ∷ rs) h = ground (arith, reject_overlap-eq-ok a rs)

reject_overlap-ok_of :
    (a : Text) (roots : List Text) → any (overlaps a) roots ≡ false → reject_overlap a roots ≡ ok tt
unfolding reject_overlap
reject_overlap-ok_of a [] h = refl
reject_overlap-ok_of a (r ∷ rs) h = ground (arith, reject_overlap-ok_of a rs)

pub owners-length_of_none :
    (p : Text) (roots : List Text)
    → any (λ root. covers root p) roots ≡ false
    → length (owners p roots) ≡ 0
owners-length_of_none p roots h = rw (keep_if-is_empty (λ root. covers root p) roots h)

owners-length_of_some :
    (p : Text) (roots : List Text)
    → any (λ root. covers root p) roots ≡ true
    → 1 ≤ length (owners p roots)
unfolding keep_if
owners-length_of_some p [] h = cc
owners-length_of_some p (r ∷ rs) h = ground (arith, owners-length_of_some p rs)

pub no-any-covers :
    (a p : Text) (roots : List Text)
    → any (overlaps a) roots ≡ false
    → covers a p ≡ true
    → any (λ root. covers root p) roots ≡ false
no-any-covers a p roots h c = ground (arith, any-covers→any-overlaps a p roots c)

accepted→single :
    (roots : List Text) (p : Text) → reject_overlaps roots ≡ ok tt → length (owners p roots) ≤ 1
unfolding reject_overlaps keep_if
accepted→single [] p h = omega arith
accepted→single (r ∷ rs) p h = ground (
  arith,
  accepted→single rs p,
  reject_overlap-eq-ok r rs,
  no-any-covers r p rs,
  owners-length_of_none p rs,
)

-- A path under `a` and under a later root: the root that overlaps `a`.
pub shared_root :
    (a : Text) (roots : List Text)
    → any (overlaps a) roots ≡ true
    → (p : Text) × (covers a p ≡ true) × (any (λ root. covers root p) roots ≡ true)
shared_root a [] h = cc
shared_root a (r ∷ rs) h = elim (Bool-cases (overlaps a r)) [
  | inl o ↦ let (p, c, d) = overlaps→Shared a r o in (p, c, rw d)
  | inr n ↦ let (p, c, d) = shared_root a rs (ground arith) in (p, c, ground arith)
]

tail_single :
    (r p : Text) (rs : List Text) → length (owners p (r ∷ rs)) ≤ 1 → length (owners p rs) ≤ 1
unfolding keep_if
tail_single r p rs h = ground arith

single→accepted :
    (roots : List Text) → ((p : Text) → length (owners p roots) ≤ 1) → reject_overlaps roots ≡ ok tt
unfolding reject_overlaps
single→accepted [] h = refl
single→accepted (r ∷ rs) h =
    rw (reject_overlap-ok_of r rs (none_overlaps (Bool-cases (any (overlaps r) rs))))
      (single→accepted rs (λ p. tail_single r p rs (h p)))
  where
    two_owners :
        (p : Text)
        → covers r p ≡ true
        → any (λ root. covers root p) rs ≡ true
        → length (owners p (r ∷ rs)) ≤ 1
        → ⊥
    two_owners p c d k = unfold keep_if in ground (arith, owners-length_of_some p rs d)

    none_overlaps :
        (any (overlaps r) rs ≡ true) ⊎ (any (overlaps r) rs ≡ false) → any (overlaps r) rs ≡ false
    none_overlaps (inr n) = n
    none_overlaps (inl o) = let (p, c, d) = shared_root r rs o in absurd (two_owners p c d (h p))

-- `_reject_overlaps` accepts a list of roots exactly when no path lies under two of its items.
pub reject_overlaps_iff :
    (roots : List Text)
    → (reject_overlaps roots ≡ ok tt) ↔ ((p : Text) → length (owners p roots) ≤ 1)
reject_overlaps_iff roots = (λ h p. accepted→single roots p h, single→accepted roots)
