-- ===== src/Spikes/Expected.antt =====
-- spikes/nl2sql-accuracy/expected.py: the expected answers, computed from the tables of `generate`.
-- `Floats` stands for the arithmetic of floats behind the growth in percent.
pub mod Answers
pub mod Rankings
use chat_chart.Base.{
  ℕ, ◌+◌, ◌-◌, ◌*◌, Bool, true, false, not, ◌&&◌, ◌||◌, Option, none, some, List, [], ◌∷◌, Result,
  ok, err, ◌>>=◌, require, if◌then◌else◌, nat_eq, leb, ltb, Text, codes, take, ◌==◌, text_le,
  keep_if, sort_by, length, ℤ, pos, negsuc,
}
use chat_chart.Spikes.Groups.{get, index_by, add_all, sum_by}
use chat_chart.Spikes.Seed.{
  Tables, Store, Product, Order, OrderItem, OrderStatus, confirmed, cancelled, pending,
}

-- A `KeyError`, and a `ZeroDivisionError`.
pub data ExpectedError : Type 0 where
  key_error zero_division : ExpectedError

abbrev pub M {ℓ} : Type ℓ → Type ℓ
M A = Result ExpectedError A

abbrev pub tenant : Text
tenant = codes "t_alpha"

-- What `_data` returns.
pub record TenantData : Type 0 where
  pub orders : List (ℕ × Order)
  pub items : List OrderItem
  pub stores : List (ℕ × Store)
  pub products : List (ℕ × Product)

unfoldable pub data_of : Tables → TenantData
data_of t = record {
  orders = index_by (λ (o : Order). o.order_id) [] (keep_if (λ o. o.tenant_id == tenant) t.orders);
  items = keep_if (λ i. i.tenant_id == tenant) t.order_items;
  stores = index_by (λ (s : Store). s.store_id) [] (keep_if (λ s. s.tenant_id == tenant) t.stores);
  products =
      index_by (λ (p : Product). p.product_id) [] (keep_if (λ p. p.tenant_id == tenant) t.products);
}

-- What `_confirmed_sales` yields.
pub record Sale : Type 0 where
  pub order : Order
  pub item : OrderItem
  pub amount : ℕ

-- When a confirmed order was confirmed, or `none` where the loop goes on with the next item.
unfoldable pub confirmed_time : OrderStatus → Option Text → Option Text
confirmed_time confirmed (some []) = none
confirmed_time confirmed time = time
confirmed_time pending time = none
confirmed_time cancelled time = none

abbrev pub sold_at : Order → Option Text
sold_at o = confirmed_time o.status o.confirmed_at

-- Whether a time lies on a day from `first` to `last`.
abbrev pub is_between : (first last : Text) → Option Text → Bool
is_between first last none = false
is_between first last (some time) = text_le first (take 10 time) && text_le (take 10 time) last

abbrev pub sale : Order → OrderItem → Sale
sale o i = record { order = o; item = i; amount = i.quantity * i.unit_price }

-- The loop of `_confirmed_sales`.
unfoldable pub sales_in : List (ℕ × Order) → (first last : Text) → List OrderItem → M (List Sale)
unfolding get confirmed_time
sales_in orders first last [] = ok []
sales_in orders first last (i ∷ is) = do
  o ← require (get i.order_id orders) key_error
  rest ← sales_in orders first last is
  ok (if is_between first last (sold_at o) then sale o i ∷ rest else rest)

unfoldable pub confirmed_sales : Tables → (first last : Text) → M (List Sale)
unfolding sales_in data_of
confirmed_sales t first last = sales_in (data_of t).orders first last (data_of t).items

abbrev pub total_sales : List Sale → ℕ
total_sales = sum_by (λ s. s.amount)

unfoldable pub sales_june_2026 : Tables → M ℕ
sales_june_2026 t =
    confirmed_sales t (codes "2026-06-01") (codes "2026-06-30") >>= λ sales. ok (total_sales sales)

abbrev is_cancelled : OrderStatus → Bool
is_cancelled cancelled = true
is_cancelled confirmed = false
is_cancelled pending = false

-- An order that was made in July 2026 and not cancelled.
abbrev counts_this_month : Order → Bool
counts_this_month o = not (is_cancelled o.status) && take 7 o.ordered_at == codes "2026-07"

unfoldable pub order_count_this_month : Tables → ℕ
unfolding data_of keep_if
order_count_this_month t = length (keep_if (λ (k, o). counts_this_month o) (data_of t).orders)

-- `sorted(rows, key=lambda r: -r[1])`
abbrev pub more_first : Text × ℕ → Text × ℕ → Bool
more_first (_, m) (_, n) = leb n m

-- `sorted(rows, key=lambda r: (-r[1], r[0]))`
abbrev pub more_then_name : Text × ℕ → Text × ℕ → Bool
more_then_name (s, m) (t, n) = ltb n m || (nat_eq n m && text_le s t)

-- `sorted(rows)` of pairs of a text and a number.
abbrev pub pair_le : Text × ℕ → Text × ℕ → Bool
pair_le (s, m) (t, n) = if s == t then leb m n else text_le s t

-- `[(table[key].name, value) for key, value in agg.items()]`
unfoldable pub named_rows {ℓ} :
    {V : Type ℓ} → (V → Text) → List (ℕ × V) → List (ℕ × ℕ) → M (List (Text × ℕ))
unfolding get
named_rows name table [] = ok []
named_rows name table ((k, n) ∷ totals) = do
  v ← require (get k table) key_error
  rest ← named_rows name table totals
  ok ((name v, n) ∷ rest)

unfoldable pub sales_by_store_h1_2026 : Tables → M (List (Text × ℕ))
unfolding named_rows add_all sort_by
sales_by_store_h1_2026 t = do
  sales ← confirmed_sales t (codes "2026-01-01") (codes "2026-06-30")
  let agg = add_all nat_eq (λ (s : Sale). s.order.store_id) (λ s. s.amount) [] sales
  rows ← named_rows (λ (s : Store). s.name) (data_of t).stores agg
  ok (sort_by more_first rows)

-- The loop over the sales with the category of each product.
unfoldable pub with_categories : List (ℕ × Product) → List Sale → M (List (Text × ℕ))
unfolding get
with_categories products [] = ok []
with_categories products (s ∷ sales) = do
  p ← require (get s.item.product_id products) key_error
  rest ← with_categories products sales
  ok ((p.category, s.amount) ∷ rest)

abbrev pub same_text : Text → Text → Bool
same_text s t = s == t

-- The loop `agg[category] += amount`.
abbrev pub totals_of : List (Text × ℕ) → List (Text × ℕ)
totals_of amounts = add_all same_text (λ (c, n). c) (λ (c, n). n) [] amounts

unfoldable pub top3_categories_q2_2026 : Tables → M (List (Text × ℕ))
unfolding with_categories add_all sort_by
top3_categories_q2_2026 t = do
  sales ← confirmed_sales t (codes "2026-04-01") (codes "2026-06-30")
  amounts ← with_categories (data_of t).products sales
  ok (take 3 (sort_by more_first (totals_of amounts)))

abbrev text_or_empty : Option Text → Text
text_or_empty none = []
text_or_empty (some time) = time

-- `o["confirmed_at"][:7]`
abbrev pub month_of : Sale → Text
month_of s = take 7 (text_or_empty s.order.confirmed_at)

unfoldable pub monthly_sales_2025 : Tables → M (List (Text × ℕ))
unfolding add_all sort_by
monthly_sales_2025 t = confirmed_sales t (codes "2025-01-01") (codes "2025-12-31") >>= λ sales.
    ok (sort_by pair_le (add_all same_text month_of (λ s. s.amount) [] sales))

unfoldable pub sales_last_30_days : Tables → M ℕ
sales_last_30_days t =
    confirmed_sales t (codes "2026-06-17") (codes "2026-07-16") >>= λ sales. ok (total_sales sales)

-- `m - n` as an integer.
abbrev difference : ℕ → ℕ → ℤ
difference m n = if leb n m then pos (m - n) else negsuc (n - m - 1)

pub record Floats : Type 1 where
  pub Float : Type 0
  -- `m / n` of ints, `x * 100` and `round(x, 1)`
  pub ratio : ℤ → ℕ → Float
  pub times_100 : Float → Float
  pub round_1 : Float → Float

-- `round((may - apr) / apr * 100, 1)`
unfoldable pub growth : (F : Floats) → (may april : ℕ) → M F.Float
growth F may april =
    if nat_eq april 0
    then err zero_division
    else ok (F.round_1 (F.times_100 (F.ratio (difference may april) april)))

unfoldable pub mom_growth_may_2026 : (F : Floats) → Tables → M F.Float
mom_growth_may_2026 F t = confirmed_sales t (codes "2026-05-01") (codes "2026-05-31") >>= λ may.
    confirmed_sales t (codes "2026-04-01") (codes "2026-04-30") >>= λ april.
    growth F (total_sales may) (total_sales april)

unfoldable pub top3_products_by_qty_june_2026 : Tables → M (List (Text × ℕ))
unfolding named_rows add_all sort_by
top3_products_by_qty_june_2026 t = do
  sales ← confirmed_sales t (codes "2026-06-01") (codes "2026-06-30")
  let agg = add_all nat_eq (λ (s : Sale). s.item.product_id) (λ s. s.item.quantity) [] sales
  rows ← named_rows (λ (p : Product). p.name) (data_of t).products agg
  ok (take 3 (sort_by more_then_name rows))
