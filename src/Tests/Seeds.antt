-- ===== src/Tests/Seeds.antt =====
-- The synthetic shop of the spikes and the expected answers on a small one.
use chat_chart.Base.{
  ℕ, ◌≡◌, refl, some, List, [], ◌∷◌, ok, Text, InOrder, ℤ, codes, text_dec, take, keep_if, text_le,
}
use chat_chart.Spikes.Seed.Generate.{Random, IsInRange, generate}
use chat_chart.Spikes.Seed.{Tables, OrderItem, Product, reference_day, Order, confirmed}
use chat_chart.Spikes.Expected.{
  monthly_sales_2025, Sale, top3_categories_q2_2026, Floats, sales_by_store_h1_2026, tenant,
  more_first, confirmed_sales, with_categories, data_of, total_sales, pair_le, month_of,
}
use chat_chart.Spikes.Calendar.{add_time, time_text}
use chat_chart.Spikes.Expected.Rankings.{
  IsGrouping, sales_by_store_h1_2026-sum, monthly_sales_2025-IsGrouping,
  top3_categories_q2_2026-IsGrouping,
}
use chat_chart.Spikes.Seed.Rows.{IsTables}
use chat_chart.Spikes.Expected.Answers.{AreAnswers, generate-AreAnswers}
use chat_chart.Spikes.Groups.{sum_by, index_by}
use chat_chart.Spikes.Seed.Sound.{generate_total}

-- A generator that always draws the first of a range.
abbrev first_always : Random
first_always = record { State = ℕ; seeded = λ n. n; below = λ n s. (0, s); mantissa = λ s. (0, s) }

first_always-IsInRange : IsInRange first_always
first_always-IsInRange n s h = h

abbrev whole_numbers : Floats
whole_numbers = record { Float = ℤ; ratio = λ m n. m; times_100 = λ x. x; round_1 = λ x. x }

generate_total_example : (t : Tables) × (generate first_always ≡ ok t) × IsTables t
generate_total_example = generate_total first_always first_always-IsInRange

generate-AreAnswers_example :
    (t : Tables) × (generate first_always ≡ ok t) × AreAnswers whole_numbers t
generate-AreAnswers_example = generate-AreAnswers first_always whole_numbers first_always-IsInRange

-- The last day that is a day of the data.
time_text_test :
    time_text (record { day = reference_day; hour = 9; minute = 5 }) ≡ codes "2026-07-16 09:05:00"
unfolding time_text
time_text_test = refl

add_time_test :
    add_time 1 11 (record { day = 58; hour = 20; minute = 30 })
    ≡ record { day = 60; hour = 7; minute = 30 }
unfolding add_time
add_time_test = refl

abbrev sold : ℕ → (store : ℕ) → Text → Order
sold n store time = record {
  order_id = n;
  tenant_id = tenant;
  store_id = store;
  ordered_at = time;
  confirmed_at = some time;
  status = confirmed;
}

abbrev line : (order product quantity price : ℕ) → OrderItem
line n product quantity price = record {
  order_item_id = n;
  order_id = n;
  tenant_id = tenant;
  product_id = product;
  quantity = quantity;
  unit_price = price;
}

abbrev good : ℕ → Text → ℕ → Product
good n category price = record {
  product_id = n;
  tenant_id = tenant;
  name = codes "good";
  category = category;
  unit_price = price;
}

abbrev shop : Text → Text → Tables
shop day later = record {
  stores =
      record { store_id = 1; tenant_id = tenant; name = codes "east"; region = codes "x" }
      ∷ record { store_id = 2; tenant_id = tenant; name = codes "west"; region = codes "x" }
      ∷ [];
  products = good 1 (codes "food") 100 ∷ good 2 (codes "drink") 300 ∷ [];
  orders = sold 1 1 day ∷ sold 2 2 later ∷ sold 3 1 day ∷ [];
  order_items = line 1 1 2 100 ∷ line 2 2 1 300 ∷ line 3 1 3 100 ∷ [];
}

abbrev shop_2025 : Tables
shop_2025 = shop (codes "2025-03-09 10:00:00") (codes "2025-01-31 23:59:00")

abbrev months : List (Text × ℕ)
months = (codes "2025-01", 300) ∷ (codes "2025-03", 500) ∷ []

months_test : monthly_sales_2025 shop_2025 ≡ ok months
unfolding monthly_sales_2025 text_dec confirmed_sales keep_if index_by text_le
months_test = refl

monthly_sales_2025-IsGrouping_example :
    (sales : List Sale) × (confirmed_sales shop_2025 (codes "2025-01-01") (codes "2025-12-31")
      ≡ ok sales)
    × IsGrouping pair_le month_of (λ s. s.amount) sales months
monthly_sales_2025-IsGrouping_example = monthly_sales_2025-IsGrouping shop_2025 months_test

abbrev shop_2026 : Tables
shop_2026 = shop (codes "2026-06-30 10:00:00") (codes "2026-04-01 00:00:00")

abbrev top_categories : List (Text × ℕ)
top_categories = (codes "food", 500) ∷ (codes "drink", 300) ∷ []

top_categories_test : top3_categories_q2_2026 shop_2026 ≡ ok top_categories
unfolding top3_categories_q2_2026 text_dec confirmed_sales keep_if index_by text_le
top_categories_test = refl

top3_categories_q2_2026-IsGrouping_example :
    (sales : List Sale) × (amounts : List (Text × ℕ)) × (ranking : List (Text × ℕ))
    × (confirmed_sales shop_2026 (codes "2026-04-01") (codes "2026-06-30") ≡ ok sales)
    × (with_categories (data_of shop_2026).products sales ≡ ok amounts)
    × IsGrouping more_first (λ (c, n). c) (λ (c, n). n) amounts ranking
    × (top_categories ≡ take 3 ranking)
top3_categories_q2_2026-IsGrouping_example =
    top3_categories_q2_2026-IsGrouping shop_2026 top_categories_test

abbrev by_store : List (Text × ℕ)
by_store = (codes "east", 500) ∷ (codes "west", 300) ∷ []

by_store_test : sales_by_store_h1_2026 shop_2026 ≡ ok by_store
unfolding sales_by_store_h1_2026 text_dec confirmed_sales keep_if index_by text_le
by_store_test = refl

sales_by_store_h1_2026-sum_example :
    InOrder more_first by_store
    × (sales : List Sale) × (confirmed_sales shop_2026 (codes "2026-01-01") (codes "2026-06-30")
        ≡ ok sales)
    × (sum_by (λ (k, n). n) by_store ≡ total_sales sales)
sales_by_store_h1_2026-sum_example = sales_by_store_h1_2026-sum shop_2026 by_store_test
