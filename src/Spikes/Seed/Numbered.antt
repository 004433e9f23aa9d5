-- ===== src/Spikes/Seed/Numbered.antt =====
-- The ids of the tables: counted from 1, and what is found under them.
use chat_chart.Base.{
  ℕ, suc, ◌+◌, ◌≡◌, refl, Bool, true, false, ◌&&◌, Option, none, some, List, [], ◌∷◌, ◌++◌, length,
  nat_eq, get_elem?, any, arith, Text, ◌==◌, zero, subst,
}
use chat_chart.Spikes.Loops.{get_elem?-append, get_elem?-append_last, item_before}
use chat_chart.Spikes.Seed.{Store, Product, Order, OrderItem}

-- The ids of a table count up from `n`.
abbrev pub is_numbered {ℓ} : {A : Type ℓ} → (A → ℕ) → ℕ → List A → Bool
is_numbered id n [] = true
is_numbered id n (x ∷ xs) = nat_eq (id x) n && is_numbered id (suc n) xs

pub is_numbered-append {ℓ} :
    {A : Type ℓ} (id : A → ℕ) (n : ℕ) (xs : List A) (x : A)
    → is_numbered id n xs ≡ true
    → id x ≡ n + length xs
    → is_numbered id n (xs ++ (x ∷ [])) ≡ true
is_numbered-append id n [] x h e = ground arith
is_numbered-append id n (y ∷ xs) x h e = ground (arith, is_numbered-append id (suc n) xs x)

-- The store, the order and the product that a row refers to, of the same tenant.
abbrev pub has_store : List Store → Text → ℕ → Bool
has_store stores tenant n = any (λ s. nat_eq s.store_id n && s.tenant_id == tenant) stores

abbrev pub has_order : List Order → Text → ℕ → Bool
has_order orders tenant n = any (λ o. nat_eq o.order_id n && o.tenant_id == tenant) orders

abbrev pub has_product : List Product → OrderItem → Bool
has_product products i =
    any
      (λ p.
        nat_eq p.product_id i.product_id
        && p.tenant_id == i.tenant_id
        && nat_eq p.unit_price i.unit_price)
      products

is_product : Text → ℕ → Option Product → Bool
is_product tenant n none = false
is_product tenant n (some p) = nat_eq p.product_id n && p.tenant_id == tenant

-- The product under a number is of the tenant.
unfoldable pub is_product_at : List Product → Text → ℕ → Bool
unfolding is_product
is_product_at products tenant zero = false
is_product_at products tenant (suc i) = is_product tenant (suc i) (get_elem? products i)

is_product-some :
    (tenant : Text) (n : ℕ) (o : Option Product)
    → is_product tenant n o ≡ true
    → (p : Product) × (o ≡ some p) × (p.product_id ≡ n) × ((p.tenant_id == tenant) ≡ true)
unfolding is_product
is_product-some tenant n none h = cc
is_product-some tenant n (some p) h = (p, refl, ground arith, ground arith)

some-is_product :
    (p : Product) (n : ℕ) → p.product_id ≡ n → is_product p.tenant_id n (some p) ≡ true
unfolding is_product
some-is_product p n e = ground arith

pub is_product_at-append :
    (products more : List Product) (tenant : Text) (n : ℕ)
    → is_product_at products tenant n ≡ true
    → is_product_at (products ++ more) tenant n ≡ true
unfolding is_product_at
is_product_at-append products more tenant zero h = h
is_product_at-append products more tenant (suc i) h =
    let (p, e, _, _) = is_product-some tenant (suc i) (get_elem? products i) h in
    rw (get_elem?-append products more i e) (subst (λ o. is_product tenant (suc i) o ≡ true) e h)

pub is_product_at-last :
    (products : List Product) (p : Product)
    → p.product_id ≡ suc (length products)
    → is_product_at (products ++ (p ∷ [])) p.tenant_id (suc (length products)) ≡ true
unfolding is_product_at
is_product_at-last products p e =
    rw (get_elem?-append_last products p) (some-is_product p (suc (length products)) e)

pub product_at :
    (products : List Product) (tenant : Text) (n : ℕ)
    → is_product_at products tenant n ≡ true
    → (i : ℕ) × (p : Product) × (item_before products n ≡ some p)
      × (get_elem? products i ≡ some p)
      × ((p.tenant_id == tenant) ≡ true)
unfolding is_product_at item_before
product_at products tenant zero h = cc
product_at products tenant (suc i) h =
    let (p, e, _, t) = is_product-some tenant (suc i) (get_elem? products i) h in (i, p, e, e, t)
