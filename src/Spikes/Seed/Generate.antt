-- ===== src/Spikes/Seed/Generate.antt =====
-- spikes/nl2sql-accuracy/seed.py: `generate`, the data of a shop for three tenants.
-- `Random` stands for `random.Random`: its state, what `_randbelow` draws for `randrange` and `choice`, and
-- the 53 bits that `random()` divides by 2 ^ 53.
use chat_chart.Base.{
  ℕ, suc, ◌+◌, ◌<◌, Option, none, some, List, [], ◌∷◌, ◌++◌, ok, ◌>>=◌, if◌then◌else◌, Text,
  require, length, get_elem?, ltb, ◌%◌,
}
use chat_chart.Spikes.Loops.{item_before, for_range}
use chat_chart.Spikes.Seed.{
  with_product, with_order, with_store, M, Draft, with_item, reference_day, Tables, OrderStatus,
  regions, tenants, index_error, store_count, categories, empty_draft, key_error, pending,
  confirmed, prices, cancelled,
}
use chat_chart.Spikes.Calendar.{Moment, add_time, time_text}

pub record Random : Type 1 where
  pub State : Type 0
  pub seeded : ℕ → State
  pub below : ℕ → State → ℕ × State
  pub mantissa : State → ℕ × State

-- `randrange` and `choice` draw from their range.
abbrev pub IsInRange : Random → Type 0
IsInRange R = (n : ℕ) (s : R.State) → 0 < n → (R.below n s).0 < n

module _ (R : Random) where
  -- `rng.choice(xs)`
  unfoldable pub choice {ℓ} : {A : Type ℓ} → List A → R.State → M (A × R.State)
  choice xs s =
      let (i, s') = R.below (length xs) s in
      require (get_elem? xs i) index_error >>= λ x. ok (x, s')

  -- A list that grows beside the draft, and the state of the generator.
  abbrev pub Growing : Type 0
  Growing = Draft × List ℕ × R.State

  -- The loop over the stores of a tenant, with `tenant_stores`.
  unfoldable pub add_store : Text → ℕ → Growing → M Growing
  unfolding choice with_store
  add_store tenant i (g, own, s) = do
    (region, s') ← choice regions s
    ok (with_store tenant i region g, own ++ (g.sid ∷ []), s')

  -- The loop over the products of a tenant, with `tenant_products`.
  unfoldable pub add_product : Text → ℕ → Growing → M Growing
  unfolding choice with_product
  add_product tenant i (g, own, s) = do
    category ← require (get_elem? categories (i % 4)) index_error
    (price, s') ← choice prices s
    ok (with_product tenant i category price g, own ++ (g.pid ∷ []), s')

  -- The status of an order and when it was confirmed. The constants are 0.80 and 0.92 as multiples of
  -- 2 ^ -53.
  unfoldable pub settle : Moment → R.State → OrderStatus × Option Text × R.State
  settle ordered s =
      let (r, s1) = R.mantissa s in
      let (days, s2) = R.below 6 s1 in
      let (hours, s3) = R.below 12 s2 in
      let done = add_time days hours ordered in
      if ltb r 7205759403792794
      then (if ltb reference_day done.day
          then (pending, none, s3)
          else (confirmed, some (time_text done), s3))
      else if ltb r 8286623314361713
      then (pending, none, s1)
      else (cancelled, none, s1)

  -- The loop over the items of an order.
  unfoldable pub add_item : Text → List ℕ → ℕ → Draft × R.State → M (Draft × R.State)
  unfolding choice item_before with_item
  add_item tenant own i (g, s) = do
    (number, s1) ← choice own s
    p ← require (item_before g.tables.products number) index_error
    let (q, s2) = R.below 5 s1
    ok (with_item tenant p (1 + q) g, s2)

  -- When an order is made.
  unfoldable pub order_time : R.State → Moment × R.State
  order_time s =
      let (day, s1) = R.below (reference_day + 1) s in
      let (hour, s2) = R.below 12 s1 in
      let (minute, s3) = R.below 60 s2 in
      (record { day = day; hour = 9 + hour; minute = minute }, s3)

  -- The loop over the orders of a tenant.
  unfoldable pub add_order :
      Text → (stores products : List ℕ) → ℕ → Draft × R.State → M (Draft × R.State)
  unfolding order_time settle with_order add_item choice for_range
  add_order tenant stores products i (g, s) = do
    let (ordered, s1) = order_time s
    let (status, confirmed_at, s2) = settle ordered s1
    (store, s3) ← choice stores s2
    let (n, s4) = R.below 3 s3
    (g', s5) ←
        for_range (add_item tenant products) 0 (suc n)
          (with_order tenant store ordered status confirmed_at g, s4)
    ok (record g' { oid = g'.oid + 1 }, s5)

  -- The loop over the tenants.
  unfoldable pub add_tenant : Text → Draft × R.State → M (Draft × R.State)
  add_tenant tenant (g, s) = do
    count ← require (store_count tenant) key_error
    (g1, stores, s1) ← for_range (add_store tenant) 0 count (g, [], s)
    (g2, products, s2) ← for_range (add_product tenant) 0 12 (g1, [], s1)
    for_range (add_order tenant stores products) 0 1500 (g2, s2)

  unfoldable pub add_tenants : List Text → Draft × R.State → M (Draft × R.State)
  unfolding add_tenant
  add_tenants [] x = ok x
  add_tenants (t ∷ ts) x = add_tenant t x >>= add_tenants ts

  -- `generate`
  unfoldable pub generate : M Tables
  unfolding add_tenants
  generate = add_tenants tenants (empty_draft, R.seeded 42) >>= λ (g, s). ok g.tables
