-- ===== src/Prodcc/KeyConverter/Disjoint.antt =====
-- protocol/Prodcc/KeyConverter.h: the parts of the key domain that the tables have.
use native.Mathlib.Nat.{mod-lt, mul-le-mul_right, suc-mul}
use prdcc.Base.{ℕ, suc, ◌≡◌, ◌+◌, ◌-◌, ◌*◌, ◌^◌, ◌≤◌, ◌<◌, arith}
use prdcc.Prodcc.KeyConverter.{
  TpccLayout, Key, warehouse, district, customer, customer_name_idx, item, stock, new_order, order,
  order_line, customers_per_district, last_names_per_district, items_per_warehouse, warehouse_base,
  district_base, customer_base, customer_name_idx_base, item_base, stock_base, new_order_base,
  order_base, order_line_base, tpcc_max_key, district_slot, to_uint64,
}

-- The ids are those of rows: positive, and within the counts.
abbrev pub IsId : ℕ → ℕ → Type 0
IsId id count = (0 < id) × (id ≤ count)

abbrev pub IsKey : TpccLayout → Key → Type 0
IsKey l (warehouse w) = IsId w l.warehouse_count
IsKey l (district w d) = IsId w l.warehouse_count × IsId d l.districts_per_warehouse
IsKey l (customer w d c) =
    IsId w l.warehouse_count × IsId d l.districts_per_warehouse × IsId c customers_per_district
IsKey l (customer_name_idx w d n) =
    IsId w l.warehouse_count × IsId d l.districts_per_warehouse × (n < last_names_per_district)
IsKey l (item i) = IsId i items_per_warehouse
IsKey l (stock w i) = IsId w l.warehouse_count × IsId i items_per_warehouse
IsKey l (new_order w d o) = IsId w l.warehouse_count × IsId d l.districts_per_warehouse × (0 < o)
IsKey l (order w d o) = IsId w l.warehouse_count × IsId d l.districts_per_warehouse × (0 < o)
IsKey l (order_line w d o n) =
    IsId w l.warehouse_count × IsId d l.districts_per_warehouse × (0 < o) × (0 < n)

-- Where the table of a key begins and ends.
abbrev pub base_of : TpccLayout → Key → ℕ
base_of l (warehouse w) = warehouse_base l
base_of l (district w d) = district_base l
base_of l (customer w d c) = customer_base l
base_of l (customer_name_idx w d n) = customer_name_idx_base l
base_of l (item i) = item_base l
base_of l (stock w i) = stock_base l
base_of l (new_order w d o) = new_order_base l
base_of l (order w d o) = order_base l
base_of l (order_line w d o n) = order_line_base l

abbrev pub end_of : TpccLayout → Key → ℕ
end_of l (warehouse w) = district_base l
end_of l (district w d) = customer_base l
end_of l (customer w d c) = customer_name_idx_base l
end_of l (customer_name_idx w d n) = item_base l
end_of l (item i) = stock_base l
end_of l (stock w i) = new_order_base l
end_of l (new_order w d o) = order_base l
end_of l (order w d o) = order_line_base l
end_of l (order_line w d o n) = tpcc_max_key l + 1

suc-row : (a n : ℕ) → suc a * n ≡ a * n + n
suc-row a n = suc-mul a n

-- A row of `n` columns, in a table of `k` rows.
cell-lt : (a b k n : ℕ) → a < k → b < n → a * n + b < k * n
cell-lt a b k n p q =
    omega (arith, suc-row a n, mul-le-mul_right {m = suc a} {n = k} n (omega arith))

-- How many numbers the tables have together.
abbrev pub domain_size : TpccLayout → ℕ
domain_size l =
    let districts = l.warehouse_count * l.districts_per_warehouse in
    l.warehouse_count
    + districts
    + districts * 3000
    + districts * 1000
    + 100000
    + l.warehouse_count * 100000
    + districts * 100000
    + districts * 100000
    + districts * 1500000

slot-lt :
    (l : TpccLayout) (w d : ℕ)
    → domain_size l ≤ 2 ^ 64
    → IsId w l.warehouse_count
    → IsId d l.districts_per_warehouse
    → district_slot l w d < l.warehouse_count * l.districts_per_warehouse
unfolding district_slot
slot-lt l w d fits p q = omega (
  arith,
  cell-lt (w - 1) (d - 1) l.warehouse_count l.districts_per_warehouse (omega arith) (omega arith),
)

-- The number of a row of a table lies between the first number of its table and that of the next one,
-- when its ids are positive and within the layout (orders and order lines: positive) and the tables together have
-- at most 2 ^ 64 numbers. The numbers of two
-- tables are therefore never the same, and all are from `tpcc_min_key` to `tpcc_max_key`.
pub to_uint64-bounds :
    (l : TpccLayout) (k : Key)
    → IsKey l k
    → domain_size l ≤ 2 ^ 64
    → (base_of l k ≤ to_uint64 l k) × (to_uint64 l k < end_of l k)
unfolding to_uint64
to_uint64-bounds l (warehouse w) h fits = (omega arith, omega arith)
to_uint64-bounds l (district w d) (p, q) fits =
    let inside =
      cell-lt (w - 1) (d - 1) l.warehouse_count l.districts_per_warehouse (omega arith)
        (omega arith) in
    (omega (arith, inside), omega (arith, inside))
to_uint64-bounds l (customer w d c) (p, q, r) fits =
    (omega (arith, slot-lt l w d fits p q), omega (arith, slot-lt l w d fits p q))
to_uint64-bounds l (customer_name_idx w d n) (p, q, r) fits =
    (omega (arith, slot-lt l w d fits p q), omega (arith, slot-lt l w d fits p q))
to_uint64-bounds l (item i) h fits = (omega arith, omega arith)
to_uint64-bounds l (stock w i) (p, q) fits = (omega arith, omega arith)
to_uint64-bounds l (new_order w d o) (p, q, r) fits =
    let column = mod-lt (o - 1) {m = 100000} (omega arith) in
    (omega (arith, slot-lt l w d fits p q, column), omega (arith, slot-lt l w d fits p q, column))
to_uint64-bounds l (order w d o) (p, q, r) fits =
    let column = mod-lt (o - 1) {m = 100000} (omega arith) in
    (omega (arith, slot-lt l w d fits p q, column), omega (arith, slot-lt l w d fits p q, column))
to_uint64-bounds l (order_line w d o n) (p, q, r, t) fits =
    let column = mod-lt (o - 1) {m = 100000} (omega arith) in
    let line = mod-lt (n - 1) {m = 15} (omega arith) in
    (
      omega (arith, slot-lt l w d fits p q, column, line),
      omega (arith, slot-lt l w d fits p q, column, line),
    )
