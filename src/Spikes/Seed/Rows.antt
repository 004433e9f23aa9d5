-- ===== src/Spikes/Seed/Rows.antt =====
-- What holds of the rows that `generate` has made, and that appending a row keeps it.
use chat_chart.Base.{
  ℕ, suc, ◌+◌, ◌≡◌, Bool, true, not, [], ◌∷◌, ◌++◌, length, is_none, all, arith, Text, get_elem?,
  length-append, some, Option, ◌==◌,
}
use chat_chart.Spikes.Loops.{
  any-append_more, all_more, all-append_last, any-get_elem?, any-append_last,
}
use chat_chart.Spikes.Seed.Numbered.{
  is_numbered, is_numbered-append, has_store, has_order, has_product,
}
use chat_chart.Spikes.Seed.{
  Tables, Draft, Store, Product, Order, OrderItem, OrderStatus, confirmed, pending, cancelled,
  with_order, with_store, with_item, with_product,
}
use chat_chart.Spikes.Calendar.{Moment}

-- An order is confirmed exactly if it says when.
unfoldable pub is_settled : OrderStatus → Option Text → Bool
is_settled confirmed time = not (is_none time)
is_settled pending time = is_none time
is_settled cancelled time = is_none time

-- Every table is numbered from 1, every order is of a store of its tenant, every item is of an order and a
-- product of its tenant at the price of the product, and the confirmed orders are those with a time.
pub record IsTables (t : Tables) : Type 0 where
  pub stores_numbered : is_numbered (λ (s : Store). s.store_id) 1 t.stores ≡ true
  pub products_numbered : is_numbered (λ (p : Product). p.product_id) 1 t.products ≡ true
  pub orders_numbered : is_numbered (λ (o : Order). o.order_id) 1 t.orders ≡ true
  pub items_numbered : is_numbered (λ (i : OrderItem). i.order_item_id) 1 t.order_items ≡ true
  pub orders_placed : all (λ o. has_store t.stores o.tenant_id o.store_id) t.orders ≡ true
  pub items_ordered : all (λ i. has_order t.orders i.tenant_id i.order_id) t.order_items ≡ true
  pub items_sold : all (has_product t.products) t.order_items ≡ true
  pub settled : all (λ o. is_settled o.status o.confirmed_at) t.orders ≡ true

-- The draft between two rounds, or with an order whose items are being added.
pub record IsDraft (begun : ℕ) (g : Draft) : Type 0 where
  pub sound : IsTables g.tables
  pub next_store : g.sid ≡ suc (length g.tables.stores)
  pub next_product : g.pid ≡ suc (length g.tables.products)
  pub next_order : g.oid + begun ≡ suc (length g.tables.orders)
  pub next_item : g.iid ≡ suc (length g.tables.order_items)

module _ (t : Tables) (sound : IsTables t) where
  store-IsTables :
      (s : Store)
      → s.store_id ≡ suc (length t.stores)
      → IsTables (record t { stores = t.stores ++ (s ∷ []) })
  store-IsTables s e = record {
    stores_numbered =
        is_numbered-append (λ (x : Store). x.store_id) 1 t.stores s sound.stores_numbered
          (omega arith);
    products_numbered = sound.products_numbered;
    orders_numbered = sound.orders_numbered;
    items_numbered = sound.items_numbered;
    orders_placed =
        all_more _ _ t.orders (λ o h. any-append_more _ t.stores (s ∷ []) h) sound.orders_placed;
    items_ordered = sound.items_ordered;
    items_sold = sound.items_sold;
    settled = sound.settled;
  }

  product-IsTables :
      (p : Product)
      → p.product_id ≡ suc (length t.products)
      → IsTables (record t { products = t.products ++ (p ∷ []) })
  product-IsTables p e = record {
    stores_numbered = sound.stores_numbered;
    products_numbered =
        is_numbered-append (λ (x : Product). x.product_id) 1 t.products p sound.products_numbered
          (omega arith);
    orders_numbered = sound.orders_numbered;
    items_numbered = sound.items_numbered;
    orders_placed = sound.orders_placed;
    items_ordered = sound.items_ordered;
    items_sold =
        all_more _ _ t.order_items (λ i h. any-append_more _ t.products (p ∷ []) h)
          sound.items_sold;
    settled = sound.settled;
  }

  order-IsTables :
      (o : Order)
      → o.order_id ≡ suc (length t.orders)
      → has_store t.stores o.tenant_id o.store_id ≡ true
      → is_settled o.status o.confirmed_at ≡ true
      → IsTables (record t { orders = t.orders ++ (o ∷ []) })
  order-IsTables o e placed told = record {
    stores_numbered = sound.stores_numbered;
    products_numbered = sound.products_numbered;
    orders_numbered =
        is_numbered-append (λ (x : Order). x.order_id) 1 t.orders o sound.orders_numbered
          (omega arith);
    items_numbered = sound.items_numbered;
    orders_placed = all-append_last _ t.orders o sound.orders_placed placed;
    items_ordered =
        all_more _ _ t.order_items (λ i h. any-append_more _ t.orders (o ∷ []) h)
          sound.items_ordered;
    items_sold = sound.items_sold;
    settled = all-append_last _ t.orders o sound.settled told;
  }

  item-IsTables :
      (i : OrderItem)
      → i.order_item_id ≡ suc (length t.order_items)
      → has_order t.orders i.tenant_id i.order_id ≡ true
      → has_product t.products i ≡ true
      → IsTables (record t { order_items = t.order_items ++ (i ∷ []) })
  item-IsTables i e ordered sold = record {
    stores_numbered = sound.stores_numbered;
    products_numbered = sound.products_numbered;
    orders_numbered = sound.orders_numbered;
    items_numbered =
        is_numbered-append (λ (x : OrderItem). x.order_item_id) 1 t.order_items i
          sound.items_numbered (omega arith);
    orders_placed = sound.orders_placed;
    items_ordered = all-append_last _ t.order_items i sound.items_ordered ordered;
    items_sold = all-append_last (has_product t.products) t.order_items i sound.items_sold sold;
    settled = sound.settled;
  }

pub with_store-IsDraft :
    (tenant : Text) (i : ℕ) (region : Text) (g : Draft)
    → IsDraft 0 g
    → IsDraft 0 (with_store tenant i region g)
unfolding with_store
with_store-IsDraft tenant i region g d = record {
  sound = store-IsTables g.tables d.sound _ d.next_store;
  next_store = omega (arith, length-append {0} g.tables.stores, d.next_store);
  next_product = d.next_product;
  next_order = d.next_order;
  next_item = d.next_item;
}

pub with_product-IsDraft :
    (tenant : Text) (i : ℕ) (category : Text) (price : ℕ) (g : Draft)
    → IsDraft 0 g
    → IsDraft 0 (with_product tenant i category price g)
unfolding with_product
with_product-IsDraft tenant i category price g d = record {
  sound = product-IsTables g.tables d.sound _ d.next_product;
  next_store = d.next_store;
  next_product = omega (arith, length-append {0} g.tables.products, d.next_product);
  next_order = d.next_order;
  next_item = d.next_item;
}

pub with_order-IsDraft :
    (tenant : Text) (store : ℕ) (ordered : Moment) (status : OrderStatus) (time : Option Text)
    (g : Draft)
    → IsDraft 0 g
    → has_store g.tables.stores tenant store ≡ true
    → is_settled status time ≡ true
    → IsDraft 1 (with_order tenant store ordered status time g)
      × (has_order (with_order tenant store ordered status time g).tables.orders tenant g.oid
          ≡ true)
unfolding with_order
with_order-IsDraft tenant store ordered status time g d placed told = (
  record {
    sound = order-IsTables g.tables d.sound _ (omega (arith, d.next_order)) placed told;
    next_store = d.next_store;
    next_product = d.next_product;
    next_order = omega (arith, length-append {0} g.tables.orders, d.next_order);
    next_item = d.next_item;
  },
  any-append_last _ g.tables.orders _ (ground arith),
)

pub with_item-IsDraft :
    (tenant : Text) (p : Product) (quantity : ℕ) (g : Draft)
    → IsDraft 1 g
    → has_order g.tables.orders tenant g.oid ≡ true
    → ((i : ℕ) × (get_elem? g.tables.products i ≡ some p))
    → (p.tenant_id == tenant) ≡ true
    → IsDraft 1 (with_item tenant p quantity g)
unfolding with_item
with_item-IsDraft tenant p quantity g d ordered (i, e) same = record {
  sound =
      item-IsTables g.tables d.sound _ d.next_item ordered
        (any-get_elem? _ g.tables.products i e (ground arith));
  next_store = d.next_store;
  next_product = d.next_product;
  next_order = d.next_order;
  next_item = omega (arith, length-append {0} g.tables.order_items, d.next_item);
}
