-- ===== src/Spikes/Expected/Answers.antt =====
-- On the tables of `generate` no question of expected.py fails, but where a growth is taken of nothing.
use chat_chart.Base.{
  ℕ, ◌≡◌, refl, Bool, true, ◌&&◌, List, [], ◌∷◌, ok, nat_eq, Text, ◌==◌, keep_if, any, all, arith,
  if◌then◌else◌, ◌∙◌, codes, nat_eq_iff, take, sort_by,
}
use chat_chart.Spikes.Loops.{any-keep_if, any_more, all-kept, all_more}
use chat_chart.Spikes.Groups.{get, index_by, add_all}
use chat_chart.Spikes.Groups.Laws.{is_found, index_by-is_found, found, add_all-keys}
use chat_chart.Spikes.Seed.{Tables, Store, Product, Order, OrderItem}
use chat_chart.Spikes.Seed.Generate.{Random, IsInRange, generate}
use chat_chart.Spikes.Seed.Sound.{generate_total}
use chat_chart.Spikes.Seed.Rows.{IsTables}
use chat_chart.Spikes.Expected.{
  tenant, data_of, Sale, sales_in, confirmed_sales, named_rows, with_categories, sale, is_between,
  sold_at, Floats, sales_by_store_h1_2026, sales_june_2026, top3_categories_q2_2026,
  monthly_sales_2025, sales_last_30_days, mom_growth_may_2026, growth,
  top3_products_by_qty_june_2026, total_sales, more_then_name, more_first, pair_le, same_text,
  month_of, totals_of,
}

-- Something stands under the key.
abbrev pub has {ℓ} : {V : Type ℓ} → ℕ → List (ℕ × V) → Bool
has k table = is_found (λ _. true) (get k table)

-- What is looked up for a tenant is found, if a row of the tenant has the id.
indexed {ℓ} :
    {A : Type ℓ} (p : A → Bool) (id : A → ℕ) (owner : A → Text) (k : ℕ) (name : Text) (xs : List A)
    → any (λ x. nat_eq (id x) k && owner x == name) xs ≡ true
    → (name == tenant) ≡ true
    → all p (keep_if (λ x. owner x == tenant) xs) ≡ true
    → is_found p (get k (index_by id [] (keep_if (λ x. owner x == tenant) xs))) ≡ true
unfolding get
indexed p id owner k name xs h same kept =
    index_by-is_found p id k [] (keep_if (λ x. owner x == tenant) xs) kept (
      any-keep_if (λ x. owner x == tenant) (λ x. nat_eq (id x) k) xs
      ∙ any_more _ _ xs (λ x e. ground arith) h)

all-true {ℓ} : {A : Type ℓ} (xs : List A) → all (λ _. true) xs ≡ true
all-true [] = refl
all-true (x ∷ xs) = all-true xs

module _ (t : Tables) (sound : IsTables t) where
  stores_found :
      all
        (λ (o : Order). has o.store_id (data_of t).stores)
        (keep_if (λ (o : Order). o.tenant_id == tenant) t.orders)
      ≡ true
  unfolding data_of
  stores_found =
      all-kept _ _ _ t.orders
        (λ o same placed.
          indexed (λ _. true) (λ (s : Store). s.store_id) (λ s. s.tenant_id) o.store_id o.tenant_id
            t.stores placed same
            (all-true (keep_if (λ (s : Store). s.tenant_id == tenant) t.stores)))
        sound.orders_placed

  orders_found :
      all
        (λ (i : OrderItem).
          is_found
            (λ (o : Order). has o.store_id (data_of t).stores)
            (get i.order_id (data_of t).orders))
        (data_of t).items
      ≡ true
  unfolding data_of
  orders_found =
      all-kept _ _ _ t.order_items
        (λ i same ordered.
          indexed _ (λ (o : Order). o.order_id) (λ o. o.tenant_id) i.order_id i.tenant_id t.orders
            ordered same stores_found)
        sound.items_ordered

  products_found :
      all (λ (i : OrderItem). has i.product_id (data_of t).products) (data_of t).items ≡ true
  unfolding data_of
  products_found =
      all-kept _ _ _ t.order_items
        (λ i same sold.
          indexed (λ _. true) (λ (p : Product). p.product_id) (λ p. p.tenant_id) i.product_id
            i.tenant_id t.products (any_more _ _ t.products (λ p e. ground arith) sold) same
            (all-true (keep_if (λ (p : Product). p.tenant_id == tenant) t.products)))
        sound.items_sold

sales_in-total :
    (p : Order → Bool) (q : OrderItem → Bool) (orders : List (ℕ × Order)) (first last : Text)
    (is : List OrderItem)
    → all (λ i. is_found p (get i.order_id orders)) is ≡ true
    → all q is ≡ true
    → (sales : List Sale) × (sales_in orders first last is ≡ ok sales)
      × (all (λ s. p s.order && q s.item) sales ≡ true)
unfolding sales_in
sales_in-total p q orders first last [] h k = ([], refl, refl)
sales_in-total p q orders first last (i ∷ is) h k =
    let (o, e, f) = found p (get i.order_id orders) (ground arith) in
    let (sales, r, g) = sales_in-total p q orders first last is (ground arith) (ground arith) in
    (
      (if is_between first last (sold_at o) then sale o i ∷ sales else sales),
      rw (e, r) refl,
      ground arith,
    )

named_rows-total {ℓ} :
    {V : Type ℓ} (name : V → Text) (table : List (ℕ × V)) (totals : List (ℕ × ℕ))
    → all (λ (k, n). has k table) totals ≡ true
    → (rows : List (Text × ℕ)) × (named_rows name table totals ≡ ok rows)
unfolding named_rows
named_rows-total name table [] h = ([], refl)
named_rows-total name table ((k, n) ∷ totals) h =
    let (v, e, _) = found (λ _. true) (get k table) (ground arith) in
    let (rows, r) = named_rows-total name table totals (ground arith) in
    ((name v, n) ∷ rows, rw (e, r) refl)

with_categories-total :
    (products : List (ℕ × Product)) (sales : List Sale)
    → all (λ s. has s.item.product_id products) sales ≡ true
    → (amounts : List (Text × ℕ)) × (with_categories products sales ≡ ok amounts)
unfolding with_categories
with_categories-total products [] h = ([], refl)
with_categories-total products (s ∷ sales) h =
    let (p, e, _) = found (λ _. true) (get s.item.product_id products) (ground arith) in
    let (amounts, r) = with_categories-total products sales (ground arith) in
    ((p.category, s.amount) ∷ amounts, rw (e, r) refl)

-- Every question has an answer, and the growth is that of the sales of two months.
pub record AreAnswers (F : Floats) (t : Tables) : Type 0 where
  pub june : (n : ℕ) × (sales_june_2026 t ≡ ok n)
  pub stores : (rows : List (Text × ℕ)) × (sales_by_store_h1_2026 t ≡ ok rows)
  pub top_categories : (rows : List (Text × ℕ)) × (top3_categories_q2_2026 t ≡ ok rows)
  pub months : (rows : List (Text × ℕ)) × (monthly_sales_2025 t ≡ ok rows)
  pub last_30_days : (n : ℕ) × (sales_last_30_days t ≡ ok n)
  pub may : (m : ℕ) × (april : ℕ) × (mom_growth_may_2026 F t ≡ growth F m april)
  pub top_products : (rows : List (Text × ℕ)) × (top3_products_by_qty_june_2026 t ≡ ok rows)

module _ (F : Floats) (t : Tables) (sound : IsTables t) where
  store_has : Sale → Bool
  store_has s = has s.order.store_id (data_of t).stores

  product_has : Sale → Bool
  product_has s = has s.item.product_id (data_of t).products

  confirmed_sales-total :
      (first last : Text)
      → (sales : List Sale) × (confirmed_sales t first last ≡ ok sales)
        × (all store_has sales ≡ true)
        × (all product_has sales ≡ true)
  unfolding confirmed_sales store_has product_has
  confirmed_sales-total first last =
      let (sales, e, f) =
        sales_in-total (λ (o : Order). has o.store_id (data_of t).stores)
          (λ (i : OrderItem). has i.product_id (data_of t).products) (data_of t).orders first last
          (data_of t).items (orders_found t sound) (products_found t sound) in
      (
        sales,
        e,
        all_more _ _ sales (λ s h. ground arith) f,
        all_more _ _ sales (λ s h. ground arith) f,
      )

  by_store : (rows : List (Text × ℕ)) × (sales_by_store_h1_2026 t ≡ ok rows)
  unfolding sales_by_store_h1_2026 store_has
  by_store =
      let (sales, e, h, _) = confirmed_sales-total (codes "2026-01-01") (codes "2026-06-30") in
      let (rows, r) =
        named_rows-total (λ (s : Store). s.name) (data_of t).stores _
          (add_all-keys nat_eq nat_eq_iff (λ k. has k (data_of t).stores)
            (λ (s : Sale). s.order.store_id) (λ s. s.amount) [] sales refl h) in
      (sort_by more_first rows, rw (e, r) refl)

  by_category : (rows : List (Text × ℕ)) × (top3_categories_q2_2026 t ≡ ok rows)
  unfolding top3_categories_q2_2026 product_has
  by_category =
      let (sales, e, _, h) = confirmed_sales-total (codes "2026-04-01") (codes "2026-06-30") in
      let (amounts, r) = with_categories-total (data_of t).products sales h in
      (take 3 (sort_by more_first (totals_of amounts)), rw (e, r) refl)

  by_product : (rows : List (Text × ℕ)) × (top3_products_by_qty_june_2026 t ≡ ok rows)
  unfolding top3_products_by_qty_june_2026 product_has
  by_product =
      let (sales, e, _, h) = confirmed_sales-total (codes "2026-06-01") (codes "2026-06-30") in
      let (rows, r) =
        named_rows-total (λ (p : Product). p.name) (data_of t).products _
          (add_all-keys nat_eq nat_eq_iff (λ k. has k (data_of t).products)
            (λ (s : Sale). s.item.product_id) (λ s. s.item.quantity) [] sales refl h) in
      (take 3 (sort_by more_then_name rows), rw (e, r) refl)

  answers : AreAnswers F t
  unfolding sales_june_2026 monthly_sales_2025 sales_last_30_days mom_growth_may_2026
  answers =
      let (june, e1, _, _) = confirmed_sales-total (codes "2026-06-01") (codes "2026-06-30") in
      let (months, e5, _, _) = confirmed_sales-total (codes "2025-01-01") (codes "2025-12-31") in
      let (recent, e6, _, _) = confirmed_sales-total (codes "2026-06-17") (codes "2026-07-16") in
      let (may, e7, _, _) = confirmed_sales-total (codes "2026-05-01") (codes "2026-05-31") in
      let (april, e8, _, _) = confirmed_sales-total (codes "2026-04-01") (codes "2026-04-30") in
      record {
        june = (total_sales june, rw e1 refl);
        stores = by_store;
        top_categories = by_category;
        months =
            (sort_by pair_le (add_all same_text month_of (λ s. s.amount) [] months), rw e5 refl);
        last_30_days = (total_sales recent, rw e6 refl);
        may = (total_sales may, total_sales april, rw (e7, e8) refl);
        top_products = by_product;
      }

-- If draws lie in their range, then `generate` succeeds, and on its tables no question of expected.py
-- fails by a missing key: each has an answer, but that the growth in May may divide by sales of zero.
pub generate-AreAnswers :
    (R : Random) (F : Floats) → IsInRange R → (t : Tables) × (generate R ≡ ok t) × AreAnswers F t
generate-AreAnswers R F in_range =
    let (t, e, sound) = generate_total R in_range in (t, e, answers F t sound)
