-- ===== src/Prodcc/KeyConverter.antt =====
-- protocol/Prodcc/KeyConverter.h: the numbers of the TPC-C keys. The layout is the static record that
-- `configure_tpcc` writes. Ids are positive, as the DCHECKs say, so `id - 1` is not negative. The index of
-- a last name (a scan of a string, with a hash of the third-party kind) is given, and below 1000.
-- The arithmetic is that of uint64_t, which wraps: each function takes the remainder of what it returns, and
-- none of them divides what may have wrapped before.
pub mod Disjoint
use prdcc.Base.{ℕ, ◌+◌, ◌-◌, ◌*◌, ◌/◌, ◌%◌, ◌^◌, max}

pub record TpccLayout : Type 0 where
  pub warehouse_count : ℕ
  pub districts_per_warehouse : ℕ

unfoldable pub configure_tpcc : ℕ → ℕ → TpccLayout
configure_tpcc warehouse_count districts_per_warehouse = record {
  warehouse_count = max warehouse_count 1;
  districts_per_warehouse = max districts_per_warehouse 1;
}

abbrev pub customers_per_district : ℕ
customers_per_district = 3000

abbrev pub last_names_per_district : ℕ
last_names_per_district = 1000

abbrev pub items_per_warehouse : ℕ
items_per_warehouse = 100000

abbrev pub orders_per_district : ℕ
orders_per_district = 100000

abbrev pub max_order_lines_per_order : ℕ
max_order_lines_per_order = 15

-- The overloads of `to_uint64`, one constructor for each key type.
pub data Key : Type 0 where
  warehouse : ℕ → Key
  district : ℕ → ℕ → Key
  customer : ℕ → ℕ → ℕ → Key
  customer_name_idx : ℕ → ℕ → ℕ → Key
  item : ℕ → Key
  stock : ℕ → ℕ → Key
  new_order : ℕ → ℕ → ℕ → Key
  order : ℕ → ℕ → ℕ → Key
  order_line : ℕ → ℕ → ℕ → ℕ → Key

-- A value of uint64_t.
abbrev pub u64 : ℕ → ℕ
u64 n = n % 2 ^ 64

module _ (l : TpccLayout) where
  abbrev pub warehouse_span : ℕ
  warehouse_span = l.warehouse_count

  abbrev pub district_span : ℕ
  district_span = u64 (warehouse_span * l.districts_per_warehouse)

  abbrev pub customer_span : ℕ
  customer_span = u64 (district_span * customers_per_district)

  abbrev pub customer_name_idx_span : ℕ
  customer_name_idx_span = u64 (district_span * last_names_per_district)

  abbrev pub stock_span : ℕ
  stock_span = u64 (warehouse_span * items_per_warehouse)

  abbrev pub new_order_span : ℕ
  new_order_span = u64 (district_span * orders_per_district)

  abbrev pub order_span : ℕ
  order_span = u64 (district_span * orders_per_district)

  abbrev pub order_line_span : ℕ
  order_line_span = u64 (district_span * orders_per_district * max_order_lines_per_order)

  abbrev pub warehouse_base : ℕ
  warehouse_base = 0

  abbrev pub district_base : ℕ
  district_base = u64 (warehouse_base + warehouse_span)

  abbrev pub customer_base : ℕ
  customer_base = u64 (district_base + district_span)

  abbrev pub customer_name_idx_base : ℕ
  customer_name_idx_base = u64 (customer_base + customer_span)

  abbrev pub item_base : ℕ
  item_base = u64 (customer_name_idx_base + customer_name_idx_span)

  abbrev pub stock_base : ℕ
  stock_base = u64 (item_base + items_per_warehouse)

  abbrev pub new_order_base : ℕ
  new_order_base = u64 (stock_base + stock_span)

  abbrev pub order_base : ℕ
  order_base = u64 (new_order_base + new_order_span)

  abbrev pub order_line_base : ℕ
  order_line_base = u64 (order_base + order_span)

  -- `tpcc_min_key` and `tpcc_max_key`.
  abbrev pub tpcc_min_key : ℕ
  tpcc_min_key = warehouse_base

  abbrev pub tpcc_max_key : ℕ
  tpcc_max_key = u64 (order_line_base + order_line_span + (2 ^ 64 - 1))

  -- `warehouse_index`, `district_index`, `customer_index` and `item_index`.
  abbrev pub index : ℕ → ℕ
  index id = id - 1

  abbrev pub order_index : ℕ → ℕ
  order_index order_id = (order_id - 1) % orders_per_district

  abbrev pub order_line_index : ℕ → ℕ
  order_line_index number = (number - 1) % max_order_lines_per_order

  unfoldable pub district_slot : ℕ → ℕ → ℕ
  district_slot w d = u64 (index w * l.districts_per_warehouse + index d)

  unfoldable pub to_uint64 : Key → ℕ
  to_uint64 (warehouse w) = u64 (warehouse_base + index w)
  to_uint64 (district w d) = u64 (district_base + index w * l.districts_per_warehouse + index d)
  to_uint64 (customer w d c) =
      u64 (customer_base + district_slot w d * customers_per_district + index c)
  to_uint64 (customer_name_idx w d last_name_index) =
      u64 (customer_name_idx_base + district_slot w d * last_names_per_district + last_name_index)
  to_uint64 (item i) = u64 (item_base + index i)
  to_uint64 (stock w i) = u64 (stock_base + index w * items_per_warehouse + index i)
  to_uint64 (new_order w d o) =
      u64 (new_order_base + district_slot w d * orders_per_district + order_index o)
  to_uint64 (order w d o) =
      u64 (order_base + district_slot w d * orders_per_district + order_index o)
  to_uint64 (order_line w d o n) = u64 (
      order_line_base
      + (district_slot w d * orders_per_district + order_index o) * max_order_lines_per_order
      + order_line_index n)
