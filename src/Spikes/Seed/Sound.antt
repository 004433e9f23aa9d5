-- ===== src/Spikes/Seed/Sound.antt =====
-- `generate`: it never fails, and the rows that it returns refer to one another as they should.
use chat_chart.Base.{
  ℕ, suc, ◌+◌, ◌≡◌, true, [], ◌∷◌, ◌++◌, length, all, arith, Text, get_elem?, length-append, some,
  List, ok, ◌<◌, refl, ◌%◌, subst, sym, text_dec, All,
}
use chat_chart.Spikes.Loops.{
  any-append_more, all_more, all-append_last, any-append_last, get_elem?_total, all-get_elem?,
  for_range_total, for_range_some,
}
use chat_chart.Spikes.Seed.Numbered.{
  has_store, has_order, is_product_at, is_product_at-append, product_at, is_product_at-last,
}
use chat_chart.Spikes.Seed.{
  Tables, Draft, with_order, with_store, with_item, with_product, regions, categories, prices,
  store_count, empty_draft, tenants, product_of,
}
use chat_chart.Spikes.Seed.Generate.{
  settle, Random, IsInRange, add_store, add_product, choice, Growing, add_order, add_item,
  order_time, add_tenants, generate, add_tenant,
}
use chat_chart.Spikes.Calendar.{Moment}
use chat_chart.Spikes.Seed.Rows.{
  with_order-IsDraft, is_settled, IsDraft, with_item-IsDraft, IsTables, with_product-IsDraft,
  with_store-IsDraft,
}

settle-is_settled :
    (R : Random) (ordered : Moment) (s : R.State)
    → is_settled (settle R ordered s).0 (settle R ordered s).1 ≡ true
unfolding settle is_settled
settle-is_settled R ordered s = ground arith

module _ (R : Random) (in_range : IsInRange R) where
  choice-total {ℓ} :
      {A : Type ℓ} (xs : List A) (s : R.State)
      → 0 < length xs
      → (i : ℕ) × (x : A) × (s' : R.State) × (get_elem? xs i ≡ some x)
        × (choice R xs s ≡ ok (x, s'))
  unfolding choice
  choice-total xs s h =
      let (x, e) = get_elem?_total xs (R.below (length xs) s).0 (in_range (length xs) s h) in
      ((R.below (length xs) s).0, x, (R.below (length xs) s).1, e, rw e refl)

  HasStores : Text → Growing R → Type 0
  HasStores tenant (g, own, s) = IsDraft 0 g × (all (has_store g.tables.stores tenant) own ≡ true)

  add_store-total :
      (tenant : Text) (i : ℕ) (x : Growing R)
      → HasStores tenant x
      → (y : Growing R) × (add_store R tenant i x ≡ ok y) × (HasStores tenant y × (0 < length y.1))
  unfolding add_store HasStores
  add_store-total tenant i (g, own, s) (d, h) =
      let (_, region, s', _, c) = choice-total regions s (omega arith) in
      let kept : all (has_store (with_store tenant i region g).tables.stores tenant)
            (own ++ (g.sid ∷ []))
          ≡ true =
        all-append_last _ own g.sid
          (all_more _ _ own (λ n e. any-append_more _ g.tables.stores _ e) h)
          (any-append_last _ g.tables.stores _ (ground arith)) in
      (
        (with_store tenant i region g, own ++ (g.sid ∷ []), s'),
        rw c refl,
        (
          (with_store-IsDraft tenant i region g d, kept),
          omega (arith, length-append {0} own (g.sid ∷ [])),
        ),
      )

  HasProducts : Text → List ℕ → Growing R → Type 0
  HasProducts tenant stores (g, own, s) =
      IsDraft 0 g
      × (all (has_store g.tables.stores tenant) stores ≡ true)
      × (all (is_product_at g.tables.products tenant) own ≡ true)

  add_product-total :
      (tenant : Text) (stores : List ℕ) (i : ℕ) (x : Growing R)
      → HasProducts tenant stores x
      → (y : Growing R) × (add_product R tenant i x ≡ ok y)
        × (HasProducts tenant stores y × (0 < length y.1))
  unfolding add_product HasProducts
  add_product-total tenant stores i (g, own, s) (d, h, k) =
      let (category, e) = get_elem?_total categories (i % 4) (omega arith) in
      let (_, price, s', _, c) = choice-total prices s (omega arith) in
      let last =
        is_product_at-last g.tables.products (product_of tenant i category price g)
          d.next_product in
      let kept =
        all-append_last _ own g.pid
          (all_more _ _ own (λ n e. is_product_at-append g.tables.products _ tenant n e) k)
          (subst
            (λ n.
              is_product_at (with_product tenant i category price g).tables.products tenant n
              ≡ true)
            (sym d.next_product) last) in
      (
        (with_product tenant i category price g, own ++ (g.pid ∷ []), s'),
        rw (e, c) refl,
        (
          (with_product-IsDraft tenant i category price g d, h, kept),
          omega (arith, length-append {0} own (g.pid ∷ [])),
        ),
      )

  -- A draft with the stores and the products of a tenant, between two rounds and with an order begun.
  HasOwn : Text → (stores products : List ℕ) → Draft × R.State → Type 0
  HasOwn tenant stores products (g, s) =
      IsDraft 0 g
      × (all (has_store g.tables.stores tenant) stores ≡ true)
      × (all (is_product_at g.tables.products tenant) products ≡ true)

  HasOrder : Text → (stores products : List ℕ) → Draft × R.State → Type 0
  HasOrder tenant stores products (g, s) =
      IsDraft 1 g
      × (has_order g.tables.orders tenant g.oid ≡ true)
      × (all (has_store g.tables.stores tenant) stores ≡ true)
      × (all (is_product_at g.tables.products tenant) products ≡ true)

  module _ (tenant : Text) (stores products : List ℕ) (some_stores : 0 < length stores)
      (some_products : 0 < length products) where
    add_item-total :
        (i : ℕ) (x : Draft × R.State)
        → HasOrder tenant stores products x
        → (y : Draft × R.State) × (add_item R tenant products i x ≡ ok y)
          × HasOrder tenant stores products y
    unfolding add_item HasOrder
    add_item-total i (g, s) (d, o, h, k) =
        let (j, number, s1, e, c) = choice-total products s some_products in
        let (_, p, f, at, same) =
          product_at g.tables.products tenant number (all-get_elem? _ products j k e) in
        (
          (with_item tenant p (1 + (R.below 5 s1).0) g, (R.below 5 s1).1),
          rw (c, f) refl,
          (with_item-IsDraft tenant p (1 + (R.below 5 s1).0) g d o (_, at) same, o, h, k),
        )

    closed : (g : Draft) → IsDraft 1 g → IsDraft 0 (record g { oid = g.oid + 1 })
    closed g d = record {
      sound = d.sound;
      next_store = d.next_store;
      next_product = d.next_product;
      next_order = omega (arith, d.next_order);
      next_item = d.next_item;
    }

    add_order-total :
        (i : ℕ) (x : Draft × R.State)
        → HasOwn tenant stores products x
        → (y : Draft × R.State) × (add_order R tenant stores products i x ≡ ok y)
          × HasOwn tenant stores products y
    unfolding add_order HasOwn HasOrder
    add_order-total i (g, s) (d, h, k) =
        let o = order_time R s in
        let t = settle R o.0 o.1 in
        let (j, store, s3, e, c) = choice-total stores t.2 some_stores in
        let (begun, ordered) =
          with_order-IsDraft tenant store o.0 t.0 t.1 g d (all-get_elem? _ stores j h e)
            (settle-is_settled R o.0 o.1) in
        let n = R.below 3 s3 in
        let (y, f, (d1, _, h1, k1)) =
          for_range_total (HasOrder tenant stores products) (add_item R tenant products)
            add_item-total 0 (suc n.0) (with_order tenant store o.0 t.0 t.1 g, n.1)
            (begun, ordered, h, k) in
        ((record y.0 { oid = y.0.oid + 1 }, y.1), rw (c, f) refl, (closed y.0 d1, h1, k1))

  -- A tenant that has stores.
  abbrev IsKnown : Text → Type 0
  IsKnown tenant = (n : ℕ) × (store_count tenant ≡ some (suc n))

  HasTables : Draft × R.State → Type 0
  HasTables (g, s) = IsDraft 0 g

  add_tenant-total :
      (tenant : Text) (x : Draft × R.State)
      → IsKnown tenant
      → HasTables x
      → (y : Draft × R.State) × (add_tenant R tenant x ≡ ok y) × HasTables y
  unfolding add_tenant HasTables HasStores HasProducts HasOwn
  add_tenant-total tenant (g, s) (n, known) d =
      let (x1, e1, ((d1, h1), some1)) =
        for_range_some (HasStores tenant) (λ x. HasStores tenant x × (0 < length x.1))
          (add_store R tenant) (λ x q. q.0) (add_store-total tenant) 0 n (g, [], s) (d, refl) in
      let (x2, e2, ((d2, h2, k2), some2)) =
        for_range_some (HasProducts tenant x1.1) (λ x. HasProducts tenant x1.1 x × (0 < length x.1))
          (add_product R tenant) (λ x q. q.0) (add_product-total tenant x1.1) 0 11 (x1.0, [], x1.2)
          (d1, h1, refl) in
      let (x3, e3, (d3, _, _)) =
        for_range_total (HasOwn tenant x1.1 x2.1) (add_order R tenant x1.1 x2.1)
          (add_order-total tenant x1.1 x2.1 some1 some2) 0 1500 (x2.0, x2.2) (d2, h2, k2) in
      (x3, rw (known, e1, e2) e3, d3)

  add_tenants-total :
      (names : List Text) (x : Draft × R.State)
      → All IsKnown names
      → HasTables x
      → (y : Draft × R.State) × (add_tenants R names x ≡ ok y) × HasTables y
  unfolding add_tenants
  add_tenants-total [] x k d = (x, refl, d)
  add_tenants-total (t ∷ ts) x (k, ks) d =
      let (y, e, d1) = add_tenant-total t x k d in rw e (add_tenants-total ts y ks d1)

  all-IsKnown : All IsKnown tenants
  unfolding store_count text_dec
  all-IsKnown = ((2, refl), ((1, refl), ((3, refl), tt)))

  empty-HasTables : HasTables (empty_draft, R.seeded 42)
  unfolding HasTables
  empty-HasTables = record {
    sound = record {
      stores_numbered = refl;
      products_numbered = refl;
      orders_numbered = refl;
      items_numbered = refl;
      orders_placed = refl;
      items_ordered = refl;
      items_sold = refl;
      settled = refl;
    };
    next_store = refl;
    next_product = refl;
    next_order = refl;
    next_item = refl;
  }

  -- If draws lie in their range, then `generate` succeeds. Every table that it returns is numbered from 1,
  -- every order is of a store of its tenant, every item is of an order and of a product of its tenant, at
  -- that product's price, and an order is confirmed exactly if it has a time of confirmation.
  pub generate_total : (t : Tables) × (generate R ≡ ok t) × IsTables t
  unfolding generate HasTables
  generate_total =
      let (x, e, d) =
        add_tenants-total tenants (empty_draft, R.seeded 42) all-IsKnown empty-HasTables in
      (x.0.tables, rw e refl, d.sound)
