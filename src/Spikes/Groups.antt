-- ===== src/Spikes/Groups.antt =====
-- Dicts of spikes/nl2sql-accuracy/expected.py, in the order in which their keys came: dict comprehensions and
-- `defaultdict(int)`; and sums.
pub mod Laws
use chat_chart.Base.{ℕ, ◌+◌, Bool, Option, none, some, List, [], ◌∷◌, if◌then◌else◌, nat_eq}

-- `sum(f(x) for x in xs)`
abbrev pub sum_by {ℓ} : {A : Type ℓ} → (A → ℕ) → List A → ℕ
sum_by f [] = 0
sum_by f (x ∷ xs) = f x + sum_by f xs

module _ {ℓ} {V : Type ℓ} where
  -- `d.get(k)`
  unfoldable pub get : ℕ → List (ℕ × V) → Option V
  get k [] = none
  get k ((j, v) ∷ d) = let rest = get k d in if nat_eq j k then some v else rest

  -- `d[k] = v`
  unfoldable pub put : ℕ → V → List (ℕ × V) → List (ℕ × V)
  put k v [] = (k, v) ∷ []
  put k v ((j, w) ∷ d) = let rest = put k v d in if nat_eq j k then (j, v) ∷ d else (j, w) ∷ rest

  -- `{key(x): x for x in xs}`, over the entries that are there.
  unfoldable pub index_by : (V → ℕ) → List (ℕ × V) → List V → List (ℕ × V)
  unfolding put
  index_by key d [] = d
  index_by key d (x ∷ xs) = index_by key (put (key x) x d) xs

module _ {ℓ} {K : Type ℓ} (eq : K → K → Bool) where
  -- `d[k] += n`
  unfoldable pub add : K → ℕ → List (K × ℕ) → List (K × ℕ)
  add k n [] = (k, n) ∷ []
  add k n ((j, m) ∷ d) = let rest = add k n d in if eq j k then (j, m + n) ∷ d else (j, m) ∷ rest

  -- The loop `for x in xs: d[key(x)] += value(x)`.
  unfoldable pub add_all {κ} :
      {A : Type κ} → (A → K) → (A → ℕ) → List (K × ℕ) → List A → List (K × ℕ)
  unfolding add
  add_all key value d [] = d
  add_all key value d (x ∷ xs) = add_all key value (add (key x) (value x) d) xs
