-- ===== src/Spikes/Groups/Laws.antt =====
-- The laws of the dicts: what is found under a key, and that groups add up.
use chat_chart.Base.{
  ℕ, ◌+◌, ◌≡◌, ◌↔◌, refl, Bool, true, false, not, ◌&&◌, ◌||◌, Option, none, some, List, [], ◌∷◌,
  if◌then◌else◌, any, all, sort_by, insert_by, arith, nat_eq, insert_by-any, sort_by-any,
}
use chat_chart.Spikes.Groups.{get, put, index_by, add, add_all, sum_by}

module _ {ℓ} {A : Type ℓ} (le : A → A → Bool) (f : A → ℕ) where
  insert_by-sum : (x : A) (ys : List A) → sum_by f (insert_by le x ys) ≡ f x + sum_by f ys
  unfolding insert_by
  insert_by-sum x [] = refl
  insert_by-sum x (y ∷ ys) = ground (arith, insert_by-sum x ys)

  pub sum_by-sort : (xs : List A) → sum_by f (sort_by le xs) ≡ sum_by f xs
  unfolding sort_by
  sum_by-sort [] = refl
  sum_by-sort (x ∷ xs) = omega (arith, insert_by-sum x (sort_by le xs), sum_by-sort xs)

module _ {ℓ} {V : Type ℓ} where
  get-put :
      (j k : ℕ) (v : V) (d : List (ℕ × V))
      → get j (put k v d) ≡ (if nat_eq k j then some v else get j d)
  unfolding get put
  get-put j k v [] = refl
  get-put j k v ((i, w) ∷ d) = ground (arith, get-put j k v d)

  -- What is found has the property.
  abbrev pub is_found : (V → Bool) → Option V → Bool
  is_found p none = false
  is_found p (some v) = p v

  put-is_found :
      (p : V → Bool) (j k : ℕ) (v : V) (d : List (ℕ × V))
      → p v ≡ true
      → is_found p (get j d) ≡ true
      → is_found p (get j (put k v d)) ≡ true
  put-is_found p j k v d h f = rw (get-put j k v d) (ground arith)

  pub index_by-is_found :
      (p : V → Bool) (key : V → ℕ) (k : ℕ) (d : List (ℕ × V)) (xs : List V)
      → all p xs ≡ true
      → (is_found p (get k d) || any (λ x. nat_eq (key x) k) xs) ≡ true
      → is_found p (get k (index_by key d xs)) ≡ true
  unfolding index_by
  index_by-is_found p key k d [] h f = ground arith
  index_by-is_found p key k d (x ∷ xs) h f =
      index_by-is_found p key k (put (key x) x d) xs (ground arith)
        (rw (get-put k (key x) x d) (ground arith))

  pub found :
      (p : V → Bool) (o : Option V) → is_found p o ≡ true → (v : V) × (o ≡ some v) × (p v ≡ true)
  found p none h = cc
  found p (some v) h = (v, refl, h)

module _ {ℓ} {K : Type ℓ} (eq : K → K → Bool) where
  -- What the entries of a key hold together.
  abbrev pub sum_at : K → List (K × ℕ) → ℕ
  sum_at k d = sum_by (λ (j, n). if eq j k then n else 0) d

  -- A key stands in the dict.
  abbrev pub has_key : K → List (K × ℕ) → Bool
  has_key k d = any (λ (j, n). eq j k) d

  -- No key stands there twice.
  abbrev pub is_dict : List (K × ℕ) → Bool
  is_dict [] = true
  is_dict ((k, n) ∷ d) = not (has_key k d) && is_dict d

module _ {ℓ} {K : Type ℓ} (eq : K → K → Bool) (eq_iff : (a b : K) → (eq a b ≡ true) ↔ (a ≡ b)) where
  add-sum_at :
      (j k : K) (n : ℕ) (d : List (K × ℕ))
      → sum_at eq j (add eq k n d) ≡ sum_at eq j d + (if eq k j then n else 0)
  unfolding add
  add-sum_at j k n [] = ground arith
  add-sum_at j k n ((i, m) ∷ d) = ground (arith, eq_iff i k, add-sum_at j k n d)

  add-sum :
      (k : K) (n : ℕ) (d : List (K × ℕ))
      → sum_by (λ (j, m). m) (add eq k n d) ≡ sum_by (λ (j, m). m) d + n
  unfolding add
  add-sum k n [] = ground arith
  add-sum k n ((j, m) ∷ d) = ground (arith, add-sum k n d)

  module _ {κ} {A : Type κ} (key : A → K) (value : A → ℕ) where
    -- Under each key stands the sum over the items of the key.
    pub add_all-sum_at :
        (j : K) (d : List (K × ℕ)) (xs : List A)
        → sum_at eq j (add_all eq key value d xs)
          ≡ sum_at eq j d + sum_by (λ x. if eq (key x) j then value x else 0) xs
    unfolding add_all
    add_all-sum_at j d [] = omega arith
    add_all-sum_at j d (x ∷ xs) =
        omega (
          arith,
          add_all-sum_at j (add eq (key x) (value x) d) xs,
          add-sum_at j (key x) (value x) d,
        )

    pub add_all-sum :
        (d : List (K × ℕ)) (xs : List A)
        → sum_by (λ (j, m). m) (add_all eq key value d xs)
          ≡ sum_by (λ (j, m). m) d + sum_by value xs
    unfolding add_all
    add_all-sum d [] = omega arith
    add_all-sum d (x ∷ xs) =
        omega (arith, add_all-sum (add eq (key x) (value x) d) xs, add-sum (key x) (value x) d)

  add-has_key :
      (j k : K) (n : ℕ) (d : List (K × ℕ))
      → has_key eq j (add eq k n d) ≡ (has_key eq j d || eq k j)
  unfolding add
  add-has_key j k n [] = ground arith
  add-has_key j k n ((i, m) ∷ d) = ground (arith, eq_iff i k, add-has_key j k n d)

  -- The keys of a dict that was added to: those that were there, and those of the items.
  pub add_all-has_key {κ} :
      {A : Type κ} (key : A → K) (value : A → ℕ) (j : K) (d : List (K × ℕ)) (xs : List A)
      → has_key eq j (add_all eq key value d xs) ≡ (has_key eq j d || any (λ x. eq (key x) j) xs)
  unfolding add_all
  add_all-has_key key value j d [] = ground arith
  add_all-has_key key value j d (x ∷ xs) = ground (
    arith,
    add_all-has_key key value j (add eq (key x) (value x) d) xs,
    add-has_key j (key x) (value x) d,
  )

  add-is_dict :
      (k : K) (n : ℕ) (d : List (K × ℕ)) → is_dict eq d ≡ true → is_dict eq (add eq k n d) ≡ true
  unfolding add
  add-is_dict k n [] h = refl
  add-is_dict k n ((i, m) ∷ d) h =
      ground (arith, eq_iff k i, eq_iff i k, add-has_key i k n d, add-is_dict k n d)

  pub add_all-is_dict {κ} :
      {A : Type κ} (key : A → K) (value : A → ℕ) (d : List (K × ℕ)) (xs : List A)
      → is_dict eq d ≡ true
      → is_dict eq (add_all eq key value d xs) ≡ true
  unfolding add_all
  add_all-is_dict key value d [] h = h
  add_all-is_dict key value d (x ∷ xs) h =
      add_all-is_dict key value (add eq (key x) (value x) d) xs (add-is_dict (key x) (value x) d h)

  -- Each key has a property that the keys of all items have.
  add-keys :
      (p : K → Bool) (k : K) (n : ℕ) (d : List (K × ℕ))
      → p k ≡ true
      → all (λ (j, m). p j) d ≡ true
      → all (λ (j, m). p j) (add eq k n d) ≡ true
  unfolding add
  add-keys p k n [] h f = ground arith
  add-keys p k n ((j, m) ∷ d) h f = ground (arith, add-keys p k n d)

  pub add_all-keys {κ} :
      {A : Type κ} (p : K → Bool) (key : A → K) (value : A → ℕ) (d : List (K × ℕ)) (xs : List A)
      → all (λ (j, m). p j) d ≡ true
      → all (λ x. p (key x)) xs ≡ true
      → all (λ (j, m). p j) (add_all eq key value d xs) ≡ true
  unfolding add_all
  add_all-keys p key value d [] h f = h
  add_all-keys p key value d (x ∷ xs) h f =
      add_all-keys p key value (add eq (key x) (value x) d) xs
        (add-keys p (key x) (value x) d (ground arith) h) (ground arith)

  pub sort_by-is_dict :
      (le : K × ℕ → K × ℕ → Bool) (d : List (K × ℕ))
      → is_dict eq d ≡ true
      → is_dict eq (sort_by le d) ≡ true
  unfolding sort_by
  sort_by-is_dict le [] h = refl
  sort_by-is_dict le ((k, n) ∷ d) h =
      inserted k n (sort_by le d) (rw (sort_by-any le (λ (j, m). eq j k) d) (ground arith))
        (sort_by-is_dict le d (ground arith))
    where
      inserted :
          (k : K) (n : ℕ) (d : List (K × ℕ))
          → has_key eq k d ≡ false
          → is_dict eq d ≡ true
          → is_dict eq (insert_by le (k, n) d) ≡ true
      inserted k n [] f h = refl
      inserted k n ((i, m) ∷ d) f h = ground (
        arith,
        eq_iff k i,
        eq_iff i k,
        insert_by-any le (λ (j, l). eq j i) (k, n) d,
        inserted k n d,
      )
