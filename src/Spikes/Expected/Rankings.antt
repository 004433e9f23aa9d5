-- ===== src/Spikes/Expected/Rankings.antt =====
-- What the grouped answers of expected.py hold: each key once with its whole sum, in the order asked for.
use chat_chart.Base.{
  ℕ, ◌+◌, ◌≡◌, ◌↔◌, refl, Bool, true, false, List, [], ◌∷◌, ok, ◌==◌, Text, take, sort_by, InOrder,
  sort_by-InOrder, arith, if◌then◌else◌, text_le_total, nat_eq, nat_eq_iff, >>=-eq-ok, ok-injective,
  subst, codes, ◌∙◌, sym, ap, require, sort_by-any, any,
}
use chat_chart.Spikes.Groups.{add_all, get, sum_by}
use chat_chart.Spikes.Groups.Laws.{
  sum_by-sort, sum_at, add_all-sum_at, add_all-sum, is_dict, add_all-is_dict, sort_by-is_dict,
  has_key, add_all-has_key,
}
use chat_chart.Spikes.Seed.{Tables}
use chat_chart.Spikes.Expected.{
  Sale, confirmed_sales, same_text, month_of, pair_le, more_first, monthly_sales_2025,
  top3_categories_q2_2026, with_categories, totals_of, data_of, total_sales, sales_by_store_h1_2026,
  named_rows, key_error,
}

same_text_iff : (s t : Text) → (same_text s t ≡ true) ↔ (s ≡ t)
same_text_iff s t = ground arith

more_first_total : (x y : Text × ℕ) → more_first x y ≡ false → more_first y x ≡ true
more_first_total (s, m) (t, n) h = ground arith

pair_le_total : (x y : Text × ℕ) → pair_le x y ≡ false → pair_le y x ≡ true
pair_le_total (s, m) (t, n) h = ground (arith, text_le_total s t)

zero_plus : (n : ℕ) → 0 + n ≡ n
zero_plus n = omega arith

-- Rows in the given order, one for each key that an item has and no others, with the sum over the items of that key.
pub record IsGrouping {ℓ} {A : Type ℓ} (le : Text × ℕ → Text × ℕ → Bool) (key : A → Text)
    (value : A → ℕ) (xs : List A) (rows : List (Text × ℕ)) : Type ℓ where
  pub in_order : InOrder le rows
  pub distinct : is_dict same_text rows ≡ true
  pub keys : (k : Text) → has_key same_text k rows ≡ any (λ x. key x == k) xs
  pub sums :
      (k : Text) → sum_at same_text k rows ≡ sum_by (λ x. if key x == k then value x else 0) xs
  pub whole : sum_by (λ (k, n). n) rows ≡ sum_by value xs

sorted_groups-IsGrouping {ℓ} :
    {A : Type ℓ} (le : Text × ℕ → Text × ℕ → Bool)
    → ((x y : Text × ℕ) → le x y ≡ false → le y x ≡ true)
    → (key : A → Text) (value : A → ℕ) (xs : List A)
    → IsGrouping le key value xs (sort_by le (add_all same_text key value [] xs))
sorted_groups-IsGrouping le total key value xs = record {
  in_order = sort_by-InOrder le total (add_all same_text key value [] xs);
  distinct =
      sort_by-is_dict same_text same_text_iff le _
        (add_all-is_dict same_text same_text_iff key value [] xs refl);
  keys = λ k.
      sort_by-any le (λ (j, n). j == k) (add_all same_text key value [] xs)
      ∙ add_all-has_key same_text same_text_iff key value k [] xs;
  sums = λ k.
      sum_by-sort le _ (add_all same_text key value [] xs)
      ∙ add_all-sum_at same_text same_text_iff key value k [] xs
      ∙ zero_plus _;
  whole =
      sum_by-sort le _ (add_all same_text key value [] xs)
      ∙ add_all-sum same_text same_text_iff key value [] xs
      ∙ zero_plus _;
}

-- Rows by month that the code returns are exactly the months of the sales confirmed in 2025, in ascending order
-- and each once, with the sum of the sales of that month. Together they hold all sales of the year.
pub monthly_sales_2025-IsGrouping :
    (t : Tables) {rows : List (Text × ℕ)}
    → monthly_sales_2025 t ≡ ok rows
    → (sales : List Sale) × (confirmed_sales t (codes "2025-01-01") (codes "2025-12-31") ≡ ok sales)
      × IsGrouping pair_le month_of (λ s. s.amount) sales rows
unfolding monthly_sales_2025
monthly_sales_2025-IsGrouping t {rows} h =
    let (sales, e, h1) =
      >>=-eq-ok (confirmed_sales t (codes "2025-01-01") (codes "2025-12-31")) _ h in
    (
      sales,
      e,
      subst (IsGrouping pair_le month_of (λ s. s.amount) sales) (ok-injective h1)
          (sorted_groups-IsGrouping pair_le pair_le_total month_of (λ s. s.amount) sales),
    )

-- Top three categories that the code returns are the first three rows of a ranking of exactly the categories of
-- the sales of the second quarter: each once, with the sum of its sales, the largest first.
pub top3_categories_q2_2026-IsGrouping :
    (t : Tables) {rows : List (Text × ℕ)}
    → top3_categories_q2_2026 t ≡ ok rows
    → (sales : List Sale) × (amounts : List (Text × ℕ)) × (ranking : List (Text × ℕ))
      × (confirmed_sales t (codes "2026-04-01") (codes "2026-06-30") ≡ ok sales)
      × (with_categories (data_of t).products sales ≡ ok amounts)
      × IsGrouping more_first (λ (c, n). c) (λ (c, n). n) amounts ranking
      × (rows ≡ take 3 ranking)
unfolding top3_categories_q2_2026
top3_categories_q2_2026-IsGrouping t {rows} h =
    let (sales, e, h1) =
      >>=-eq-ok (confirmed_sales t (codes "2026-04-01") (codes "2026-06-30")) _ h in
    let (amounts, f, h2) = >>=-eq-ok (with_categories (data_of t).products sales) _ h1 in
    (
      sales,
      amounts,
      sort_by more_first (totals_of amounts),
      e,
      f,
      sorted_groups-IsGrouping more_first more_first_total (λ (c, n). c) (λ (c, n). n) amounts,
      ok-injective (sym h2),
    )

named_rows-sum {ℓ} :
    {V : Type ℓ} (name : V → Text) (table : List (ℕ × V)) (totals : List (ℕ × ℕ))
    {rows : List (Text × ℕ)}
    → named_rows name table totals ≡ ok rows
    → sum_by (λ (k, n). n) rows ≡ sum_by (λ (k, n). n) totals
unfolding named_rows
named_rows-sum name table [] {rows} h =
    subst (λ r. sum_by (λ (k, n). n) r ≡ 0) (ok-injective h) refl
named_rows-sum name table ((k, n) ∷ totals) {rows} h =
    let (v, _, h1) = >>=-eq-ok (require (get k table) key_error) _ h in
    let (rest, e, h2) = >>=-eq-ok (named_rows name table totals) _ h1 in
    subst (λ r. sum_by (λ (k, n). n) r ≡ n + sum_by (λ (k, n). n) totals) (ok-injective h2)
      (ap (λ m. n + m) (named_rows-sum name table totals e))

-- Rows by store that the code returns stand with the largest first, and together they hold all sales of the first half of 2026.
pub sales_by_store_h1_2026-sum :
    (t : Tables) {rows : List (Text × ℕ)}
    → sales_by_store_h1_2026 t ≡ ok rows
    → InOrder more_first rows
      × (sales : List Sale) × (confirmed_sales t (codes "2026-01-01") (codes "2026-06-30")
          ≡ ok sales)
      × (sum_by (λ (k, n). n) rows ≡ total_sales sales)
unfolding sales_by_store_h1_2026
sales_by_store_h1_2026-sum t {rows} h =
    let (sales, e, h1) =
      >>=-eq-ok (confirmed_sales t (codes "2026-01-01") (codes "2026-06-30")) _ h in
    let (named, f, h2) = >>=-eq-ok (named_rows _ (data_of t).stores (by_store sales)) _ h1 in
    (
      subst (InOrder more_first) (ok-injective h2)
          (sort_by-InOrder more_first more_first_total named),
      sales,
      e,
      subst (λ r. sum_by (λ (k, n). n) r ≡ total_sales sales) (ok-injective h2)
          (sum_by-sort more_first _ named
            ∙ named_rows-sum _ _ (by_store sales) f
            ∙ add_all-sum nat_eq nat_eq_iff (λ s. s.order.store_id) (λ s. s.amount) [] sales
            ∙ zero_plus _),
    )
  where
    by_store : List Sale → List (ℕ × ℕ)
    by_store sales = add_all nat_eq (λ (s : Sale). s.order.store_id) (λ s. s.amount) [] sales
