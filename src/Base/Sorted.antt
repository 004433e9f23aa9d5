-- ===== src/Base/Sorted.antt =====
-- What `sorted` does to a list that is in order, and to one without duplicates.
use mathlib.Core.Path.{◌≡◌, refl}
use mathlib.Core.Bool.{Bool, true, false, ◌||◌}
use mathlib.Core.List.{List, [], ◌∷◌}
use native.Mathlib.Omega.{arith}
use chat_chart.Base.Lists.{insert_by, sort_by, sort_by-any, insert_by-any}
use chat_chart.Base.Strings.{Text, text_le, sorted, contains, has_duplicates, ◌==◌}

module _ {ℓ} {A : Type ℓ} (le : A → A → Bool) where
  -- Each item is at most the next one.
  abbrev pub InOrder : List A → Type 0
  InOrder [] = Unit
  InOrder (x ∷ []) = Unit
  InOrder (x ∷ y ∷ ys) = (le x y ≡ true) × InOrder (y ∷ ys)

  pub sort_by_lem : (xs : List A) → InOrder xs → sort_by le xs ≡ xs
  unfolding sort_by
  sort_by_lem [] h = refl
  sort_by_lem (x ∷ []) h = refl
  sort_by_lem (x ∷ y ∷ ys) h = rw (sort_by_lem (y ∷ ys) h.1, h.0) refl

  module _ (total : (x y : A) → le x y ≡ false → le y x ≡ true) where
    insert_by-InOrder : (x : A) (xs : List A) → InOrder xs → InOrder (insert_by le x xs)
    unfolding insert_by
    insert_by-InOrder x [] h = tt
    insert_by-InOrder x (y ∷ []) h = ground (arith, total x y)
    insert_by-InOrder x (y ∷ z ∷ ys) h =
        ground (arith, total x y, total x z, insert_by-InOrder x (z ∷ ys))

    pub sort_by-InOrder : (xs : List A) → InOrder (sort_by le xs)
    unfolding sort_by
    sort_by-InOrder [] = tt
    sort_by-InOrder (x ∷ xs) = insert_by-InOrder x (sort_by le xs) (sort_by-InOrder xs)

pub text_le_total : (s t : Text) → text_le s t ≡ false → text_le t s ≡ true
unfolding text_le
text_le_total [] t h = cc
text_le_total (c ∷ s) [] h = refl
text_le_total (c ∷ s) (d ∷ t) h = ground (arith, text_le_total s t)

insert_by-duplicates :
    (le : Text → Text → Bool) (x : Text) (xs : List Text)
    → has_duplicates (insert_by le x xs) ≡ (contains x xs || has_duplicates xs)
unfolding insert_by has_duplicates
insert_by-duplicates le x [] = refl
insert_by-duplicates le x (y ∷ ys) =
    ground (arith, insert_by-duplicates le x ys, insert_by-any le (λ z. y == z) x ys)

pub sorted-duplicates : (xs : List Text) → has_duplicates (sorted xs) ≡ has_duplicates xs
unfolding sorted has_duplicates
sorted-duplicates [] = refl
sorted-duplicates (x ∷ xs) = ground (
  arith,
  insert_by-duplicates text_le x (sort_by text_le xs),
  sort_by-any text_le (λ y. x == y) xs,
  sorted-duplicates xs,
)
