-- ===== src/Spikes/Seed.antt =====
-- spikes/nl2sql-accuracy/seed.py: the constants, the rows of the tables and how `generate` appends them.
pub mod Generate
pub mod Numbered
pub mod Rows
pub mod Sound
use chat_chart.Base.{
  ℕ, ◌+◌, ◌<◌, Option, none, some, List, [], ◌∷◌, ◌++◌, Result, ok, ◌>>=◌, require, if◌then◌else◌,
  ltb, Text, codes, decimal, length, get_elem?, ◌==◌, ◌%◌, suc,
}
use chat_chart.Spikes.Loops.{for_range, item_before}
use chat_chart.Spikes.Calendar.{Moment, add_time, time_text}

-- An `IndexError`, and a `KeyError`.
pub data SeedError : Type 0 where
  index_error key_error : SeedError

abbrev pub tenants : List Text
tenants = codes "t_alpha" ∷ codes "t_bravo" ∷ codes "t_charlie" ∷ []

-- `STORE_COUNTS[tenant]`
unfoldable pub store_count : Text → Option ℕ
store_count tenant =
    if tenant == codes "t_alpha"
    then some 3
    else if tenant == codes "t_bravo"
    then some 2
    else if tenant == codes "t_charlie"
    then some 4
    else none

abbrev pub categories : List Text
categories = codes "飲料" ∷ codes "食品" ∷ codes "雑貨" ∷ codes "日用品" ∷ []

abbrev pub regions : List Text
regions = codes "東京" ∷ codes "大阪" ∷ codes "名古屋" ∷ []

abbrev pub prices : List ℕ
prices = 120 ∷ 150 ∷ 200 ∷ 300 ∷ 450 ∷ 500 ∷ 800 ∷ 1200 ∷ []

-- `(REFERENCE_DATE - DATA_START).days`
abbrev pub reference_day : ℕ
reference_day = 561

pub record Store : Type 0 where
  pub store_id : ℕ
  pub tenant_id : Text
  pub name : Text
  pub region : Text

pub record Product : Type 0 where
  pub product_id : ℕ
  pub tenant_id : Text
  pub name : Text
  pub category : Text
  pub unit_price : ℕ

pub data OrderStatus : Type 0 where
  confirmed pending cancelled : OrderStatus

pub record Order : Type 0 where
  pub order_id : ℕ
  pub tenant_id : Text
  pub store_id : ℕ
  pub ordered_at : Text
  pub confirmed_at : Option Text
  pub status : OrderStatus

pub record OrderItem : Type 0 where
  pub order_item_id : ℕ
  pub order_id : ℕ
  pub tenant_id : Text
  pub product_id : ℕ
  pub quantity : ℕ
  pub unit_price : ℕ

pub record Tables : Type 0 where
  pub stores : List Store
  pub products : List Product
  pub orders : List Order
  pub order_items : List OrderItem

-- The lists and the next numbers of `generate`.
pub record Draft : Type 0 where
  pub tables : Tables
  pub sid : ℕ
  pub pid : ℕ
  pub oid : ℕ
  pub iid : ℕ

abbrev pub empty_draft : Draft
empty_draft = record {
  tables = record { stores = []; products = []; orders = []; order_items = [] };
  sid = 1;
  pid = 1;
  oid = 1;
  iid = 1;
}

abbrev pub M {ℓ} : Type ℓ → Type ℓ
M A = Result SeedError A

-- `stores.append(...)` and the next number.
unfoldable pub with_store : Text → ℕ → Text → Draft → Draft
with_store tenant i region g =
    let store : Store = record {
      store_id = g.sid;
      tenant_id = tenant;
      name = tenant ++ (codes "_店舗" ++ decimal (i + 1));
      region = region;
    } in
    record g {
      tables = record g.tables { stores = g.tables.stores ++ (store ∷ []) };
      sid = g.sid + 1;
    }

-- The product of a round.
abbrev pub product_of : Text → ℕ → (category : Text) → (price : ℕ) → Draft → Product
product_of tenant i category price g = record {
  product_id = g.pid;
  tenant_id = tenant;
  name = tenant ++ (codes "_商品" ++ decimal (i + 1));
  category = category;
  unit_price = price;
}

-- `products.append(...)` and the next number.
unfoldable pub with_product : Text → ℕ → (category : Text) → (price : ℕ) → Draft → Draft
with_product tenant i category price g = record g {
  tables = record g.tables {
    products = g.tables.products ++ (product_of tenant i category price g ∷ []);
  };
  pid = g.pid + 1;
}

-- `items.append(...)` and the next number.
unfoldable pub with_item : Text → Product → ℕ → Draft → Draft
with_item tenant p quantity g =
    let item : OrderItem = record {
      order_item_id = g.iid;
      order_id = g.oid;
      tenant_id = tenant;
      product_id = p.product_id;
      quantity = quantity;
      unit_price = p.unit_price;
    } in
    record g {
      tables = record g.tables { order_items = g.tables.order_items ++ (item ∷ []) };
      iid = g.iid + 1;
    }

-- `orders.append(...)`
unfoldable pub with_order : Text → ℕ → Moment → OrderStatus → Option Text → Draft → Draft
with_order tenant store ordered status confirmed_at g =
    let order : Order = record {
      order_id = g.oid;
      tenant_id = tenant;
      store_id = store;
      ordered_at = time_text ordered;
      confirmed_at = confirmed_at;
      status = status;
    } in
    record g { tables = record g.tables { orders = g.tables.orders ++ (order ∷ []) } }
