-- ===== src/Base/Lists.antt =====
-- Python's `any`, `all`, list comprehensions with a test, `sorted`, `len` and slices.
use Prim.Native.Nat.{ℕ, zero, suc, ◌+◌, ◌-◌}
use mathlib.Core.Path.{◌≡◌, refl}
use mathlib.Core.Bool.{Bool, true, false, not, ◌&&◌, ◌||◌}
use mathlib.Core.Option.{Option, none, some}
use mathlib.Core.List.{List, [], ◌∷◌, ◌++◌, Perm}
use mathlib.Core.List.Perm
use native.Mathlib.Omega.{arith}
use chat_chart.Base.Tests.{if◌then◌else◌, Bool-cases, nat_eq}
use mathlib.Core.Logic.{inl, inr}

module _ {ℓ} {A : Type ℓ} where
  abbrev pub length : List A → ℕ
  length [] = 0
  length (x ∷ xs) = suc (length xs)

  abbrev pub take : ℕ → List A → List A
  take zero xs = []
  take (suc n) [] = []
  take (suc n) (x ∷ xs) = x ∷ take n xs

  abbrev pub drop : ℕ → List A → List A
  drop zero xs = xs
  drop (suc n) [] = []
  drop (suc n) (x ∷ xs) = drop n xs

  abbrev pub get_elem? : List A → ℕ → Option A
  get_elem? [] i = none
  get_elem? (x ∷ xs) zero = some x
  get_elem? (x ∷ xs) (suc i) = get_elem? xs i

  abbrev pub any : (A → Bool) → List A → Bool
  any p [] = false
  any p (x ∷ xs) = p x || any p xs

  abbrev pub all : (A → Bool) → List A → Bool
  all p [] = true
  all p (x ∷ xs) = p x && all p xs

  -- `[x for x in xs if p(x)]`
  unfoldable pub keep_if : (A → Bool) → List A → List A
  keep_if p [] = []
  keep_if p (x ∷ xs) = let rest = keep_if p xs in if p x then x ∷ rest else rest

  abbrev pub is_empty : List A → Bool
  is_empty [] = true
  is_empty (x ∷ xs) = false

  -- A statement about every item.
  abbrev pub All {κ} : (A → Type κ) → List A → Type κ
  All P [] = Unit
  All P (x ∷ xs) = P x × All P xs

  pub any-append : (p : A → Bool) (xs ys : List A) → any p (xs ++ ys) ≡ (any p xs || any p ys)
  any-append p [] ys = refl
  any-append p (x ∷ xs) ys = ground (arith, any-append p xs ys)

  pub all-append : (p : A → Bool) (xs ys : List A) → all p (xs ++ ys) ≡ (all p xs && all p ys)
  all-append p [] ys = refl
  all-append p (x ∷ xs) ys = ground (arith, all-append p xs ys)

  pub length-append : (xs ys : List A) → length (xs ++ ys) ≡ length xs + length ys
  length-append [] ys = omega arith
  length-append (x ∷ xs) ys = omega (arith, length-append xs ys)

  pub all-keep_if : (p q : A → Bool) (xs : List A) → all q xs ≡ true → all q (keep_if p xs) ≡ true
  unfolding keep_if
  all-keep_if p q [] h = refl
  all-keep_if p q (x ∷ xs) h = ground (arith, all-keep_if p q xs)

  -- Nothing is kept exactly when nothing passes the test.
  pub keep_if-is_empty : (p : A → Bool) (xs : List A) → any p xs ≡ false → keep_if p xs ≡ []
  unfolding keep_if
  keep_if-is_empty p [] h = refl
  keep_if-is_empty p (x ∷ xs) h = ground (arith, keep_if-is_empty p xs)

  pub any-false_of_keep_if : (p : A → Bool) (xs : List A) → keep_if p xs ≡ [] → any p xs ≡ false
  unfolding keep_if
  any-false_of_keep_if p [] h = refl
  any-false_of_keep_if p (x ∷ xs) h = ground (arith, any-false_of_keep_if p xs)

  module _ (le : A → A → Bool) where
    unfoldable pub insert_by : A → List A → List A
    insert_by x [] = x ∷ []
    insert_by x (y ∷ ys) = let rest = insert_by x ys in if le x y then x ∷ y ∷ ys else y ∷ rest

    -- A stable `sorted`.
    unfoldable pub sort_by : List A → List A
    unfolding insert_by
    sort_by [] = []
    sort_by (x ∷ xs) = insert_by x (sort_by xs)

    pub insert_by-perm : (x : A) (xs : List A) → Perm (insert_by x xs) (x ∷ xs)
    unfolding insert_by
    insert_by-perm x [] = Perm.rfl
    insert_by-perm x (y ∷ ys) = elim (Bool-cases (le x y)) [
      | inl h ↦ rw h Perm.rfl
      | inr h ↦ rw h (Perm.trans (Perm.cons y (insert_by-perm x ys)) (Perm.swap x y ys))
    ]

    pub sort_by-perm : (xs : List A) → Perm (sort_by xs) xs
    unfolding sort_by
    sort_by-perm [] = Perm.rfl
    sort_by-perm (x ∷ xs) =
        Perm.trans (insert_by-perm x (sort_by xs)) (Perm.cons x (sort_by-perm xs))

    pub insert_by-any :
        (p : A → Bool) (x : A) (xs : List A) → any p (insert_by x xs) ≡ (p x || any p xs)
    unfolding insert_by
    insert_by-any p x [] = refl
    insert_by-any p x (y ∷ ys) = ground (arith, insert_by-any p x ys)

    insert_by-all :
        (p : A → Bool) (x : A) (xs : List A) → all p (insert_by x xs) ≡ (p x && all p xs)
    unfolding insert_by
    insert_by-all p x [] = refl
    insert_by-all p x (y ∷ ys) = ground (arith, insert_by-all p x ys)

    -- What holds of some or of all items does not see the order.
    pub sort_by-any : (p : A → Bool) (xs : List A) → any p (sort_by xs) ≡ any p xs
    unfolding sort_by
    sort_by-any p [] = refl
    sort_by-any p (x ∷ xs) = ground (arith, sort_by-any p xs, insert_by-any p x (sort_by xs))

    pub sort_by-all : (p : A → Bool) (xs : List A) → all p (sort_by xs) ≡ all p xs
    unfolding sort_by
    sort_by-all p [] = refl
    sort_by-all p (x ∷ xs) = ground (arith, sort_by-all p xs, insert_by-all p x (sort_by xs))

    insert_by-length : (x : A) (xs : List A) → length (insert_by x xs) ≡ suc (length xs)
    unfolding insert_by
    insert_by-length x [] = refl
    insert_by-length x (y ∷ ys) = ground (arith, insert_by-length x ys)

    pub sort_by-length : (xs : List A) → length (sort_by xs) ≡ length xs
    unfolding sort_by
    sort_by-length [] = refl
    sort_by-length (x ∷ xs) = ground (arith, sort_by-length xs, insert_by-length x (sort_by xs))

  pub get_elem?-pred :
      (x : A) (xs : List A) (i : ℕ)
      → nat_eq i 0 ≡ false
      → get_elem? (x ∷ xs) i ≡ get_elem? xs (i - 1)
  get_elem?-pred x xs zero h = cc
  get_elem?-pred x xs (suc i) h = let e : suc i - 1 ≡ i = omega arith in rw e refl

  is_empty-any : (xs : List A) → is_empty xs ≡ not (any (λ _. true) xs)
  is_empty-any [] = refl
  is_empty-any (x ∷ xs) = refl

  pub sort_by-is_empty : (le : A → A → Bool) (xs : List A) → is_empty (sort_by le xs) ≡ is_empty xs
  sort_by-is_empty le xs =
      rw (is_empty-any (sort_by le xs), sort_by-any le (λ _. true) xs, is_empty-any xs)

  any-keep_if : (q : A → Bool) (xs : List A) → any (λ _. true) (keep_if q xs) ≡ any q xs
  unfolding keep_if
  any-keep_if q [] = refl
  any-keep_if q (x ∷ xs) = ground (arith, any-keep_if q xs)

  -- Nothing that is kept, in any order, means that nothing passes the test.
  pub sorted_kept-is_empty :
      (le : A → A → Bool) (q : A → Bool) (xs : List A)
      → is_empty (sort_by le (keep_if q xs)) ≡ not (any q xs)
  sorted_kept-is_empty le q xs = rw (
    is_empty-any (sort_by le (keep_if q xs)),
    sort_by-any le (λ _. true) (keep_if q xs),
    any-keep_if q xs,
  )

  pub not-any : (q : A → Bool) (xs : List A) → any (λ x. not (q x)) xs ≡ not (all q xs)
  not-any q [] = refl
  not-any q (x ∷ xs) = ground (arith, not-any q xs)

  insert_by-kept :
      (le : A → A → Bool) (q : A → Bool) (x : A) (xs : List A)
      → length (keep_if q (insert_by le x xs)) ≡ length (keep_if q (x ∷ xs))
  unfolding keep_if insert_by
  insert_by-kept le q x [] = refl
  insert_by-kept le q x (y ∷ ys) = ground (arith, insert_by-kept le q x ys)

  pub sort_by-kept :
      (le : A → A → Bool) (q : A → Bool) (xs : List A)
      → length (keep_if q (sort_by le xs)) ≡ length (keep_if q xs)
  unfolding keep_if sort_by
  sort_by-kept le q [] = refl
  sort_by-kept le q (x ∷ xs) =
      ground (arith, insert_by-kept le q x (sort_by le xs), sort_by-kept le q xs)
