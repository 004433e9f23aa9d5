-- ===== src/Spikes/Loops.antt =====
-- Python's `for` over a range, and what the spikes read of lists.
use chat_chart.Base.{
  ℕ, zero, suc, ◌≡◌, refl, ◌-◌, Bool, true, Option, some, List, [], ◌∷◌, ◌++◌, Result, ok, ◌>>=◌,
  length, get_elem?, all, arith, ◌<◌, any, any-append, all-append, keep_if, ◌&&◌,
}

-- `for i in range(first, first + count)` over a state.
unfoldable pub for_range {ℓ} :
    {E : Type 0} {S : Type ℓ} → (ℕ → S → Result E S) → (first count : ℕ) → S → Result E S
for_range body first zero s = ok s
for_range body first (suc n) s = body first s >>= for_range body (suc first) n

-- A loop whose every round succeeds and keeps `P` succeeds, and keeps `P`.
pub for_range_total {ℓ κ} :
    {E : Type 0} {S : Type ℓ} (P : S → Type κ) (body : ℕ → S → Result E S)
    → ((i : ℕ) (s : S) → P s → (s' : S) × (body i s ≡ ok s') × P s')
    → (first count : ℕ) (s : S) → P s
    → (s' : S) × (for_range body first count s ≡ ok s') × P s'
unfolding for_range
for_range_total P body round first zero s p = (s, refl, p)
for_range_total P body round first (suc n) s p =
    let (s', e, q) = round first s p in rw e (for_range_total P body round (suc first) n s' q)

-- `xs[i - 1]`, where `xs[-1]` is the last item.
unfoldable pub item_before {ℓ} : {A : Type ℓ} → List A → ℕ → Option A
item_before xs zero = get_elem? xs (length xs - 1)
item_before xs (suc i) = get_elem? xs i

pub all-get_elem? {ℓ} :
    {A : Type ℓ} (p : A → Bool) (xs : List A) (i : ℕ) {x : A}
    → all p xs ≡ true
    → get_elem? xs i ≡ some x
    → p x ≡ true
all-get_elem? p [] i h e = cc
all-get_elem? p (x ∷ xs) zero h e = ground arith
all-get_elem? p (x ∷ xs) (suc i) h e = all-get_elem? p xs i (ground arith) e

pub get_elem?_total {ℓ} :
    {A : Type ℓ} (xs : List A) (i : ℕ) → i < length xs → (x : A) × (get_elem? xs i ≡ some x)
get_elem?_total [] i h = elim h [ ]
get_elem?_total (x ∷ xs) zero h = (x, refl)
get_elem?_total (x ∷ xs) (suc i) h = get_elem?_total xs i (omega arith)

pub get_elem?-append {ℓ} :
    {A : Type ℓ} (xs ys : List A) (i : ℕ) {x : A}
    → get_elem? xs i ≡ some x
    → get_elem? (xs ++ ys) i ≡ some x
get_elem?-append [] ys i h = cc
get_elem?-append (x ∷ xs) ys zero h = h
get_elem?-append (x ∷ xs) ys (suc i) h = get_elem?-append xs ys i h

pub get_elem?-append_last {ℓ} :
    {A : Type ℓ} (xs : List A) (y : A) → get_elem? (xs ++ (y ∷ [])) (length xs) ≡ some y
get_elem?-append_last [] y = refl
get_elem?-append_last (x ∷ xs) y = get_elem?-append_last xs y

-- What all items say holds of each longer list, if it holds of one more of what they look for.
pub all_more {ℓ} :
    {A : Type ℓ} (p q : A → Bool) (xs : List A)
    → ((x : A) → p x ≡ true → q x ≡ true)
    → all p xs ≡ true
    → all q xs ≡ true
all_more p q [] step h = refl
all_more p q (x ∷ xs) step h = ground (arith, step x, all_more p q xs step)

pub any-get_elem? {ℓ} :
    {A : Type ℓ} (p : A → Bool) (xs : List A) (i : ℕ) {x : A}
    → get_elem? xs i ≡ some x
    → p x ≡ true
    → any p xs ≡ true
any-get_elem? p [] i e h = cc
any-get_elem? p (x ∷ xs) zero e h = ground arith
any-get_elem? p (x ∷ xs) (suc i) e h = ground (arith, any-get_elem? p xs i e h)

pub any-append_more {ℓ} :
    {A : Type ℓ} (p : A → Bool) (xs ys : List A) → any p xs ≡ true → any p (xs ++ ys) ≡ true
any-append_more p xs ys h = ground (arith, any-append p xs ys)

-- A loop of one round at least, whose rounds establish `Q` from the weaker `P`.
pub for_range_some {ℓ κ} :
    {E : Type 0} {S : Type ℓ} (P Q : S → Type κ) (body : ℕ → S → Result E S)
    → ((s : S) → Q s → P s)
    → ((i : ℕ) (s : S) → P s → (s' : S) × (body i s ≡ ok s') × Q s')
    → (first n : ℕ) (s : S) → P s
    → (s' : S) × (for_range body first (suc n) s ≡ ok s') × Q s'
unfolding for_range
for_range_some P Q body weaker round first n s p =
    let (s', e, q) = round first s p in
    rw e (for_range_total Q body (λ i t r. round i t (weaker t r)) (suc first) n s' q)

pub all-append_last {ℓ} :
    {A : Type ℓ} (p : A → Bool) (xs : List A) (x : A)
    → all p xs ≡ true
    → p x ≡ true
    → all p (xs ++ (x ∷ [])) ≡ true
all-append_last p xs x h e = ground (arith, all-append p xs (x ∷ []))

pub any-append_last {ℓ} :
    {A : Type ℓ} (p : A → Bool) (xs : List A) (x : A) → p x ≡ true → any p (xs ++ (x ∷ [])) ≡ true
any-append_last p xs x h = ground (arith, any-append p xs (x ∷ []))

pub any-keep_if {ℓ} :
    {A : Type ℓ} (p q : A → Bool) (xs : List A) → any q (keep_if p xs) ≡ any (λ x. p x && q x) xs
unfolding keep_if
any-keep_if p q [] = refl
any-keep_if p q (x ∷ xs) = ground (arith, any-keep_if p q xs)

pub any_more {ℓ} :
    {A : Type ℓ} (p q : A → Bool) (xs : List A)
    → ((x : A) → p x ≡ true → q x ≡ true)
    → any p xs ≡ true
    → any q xs ≡ true
any_more p q [] step h = h
any_more p q (x ∷ xs) step h = ground (arith, step x, any_more p q xs step)

-- What all items and the kept ones say together holds of the kept ones.
pub all-kept {ℓ} :
    {A : Type ℓ} (p q r : A → Bool) (xs : List A)
    → ((x : A) → p x ≡ true → q x ≡ true → r x ≡ true)
    → all q xs ≡ true
    → all r (keep_if p xs) ≡ true
unfolding keep_if
all-kept p q r [] step h = refl
all-kept p q r (x ∷ xs) step h = ground (arith, step x, all-kept p q r xs step)
