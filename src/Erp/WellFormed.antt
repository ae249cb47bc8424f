-- ===== src/Erp/WellFormed.antt =====
-- What holds of the ERP's rows after every request.
use processguard_ai.Erp.Store.{
  order_resolved, find_product, order_open, ReorderRow, Erp, WorkOrder, OrderStatus, Product,
}
use processguard_ai.Incident.{Float}
use processguard_ai.Base.{
  ◌≤◌, ◌⊎◌, ℕ, ◌<◌, ◌≡◌, true, false, Option, none, some, List, is_some, is_empty, All, Text,
}

-- An order has a description; an open one has no note, a resolved one has a note that is not blank.
abbrev pub HasNote : OrderStatus → Option Text → Type 0
HasNote order_open note = note ≡ none
HasNote order_resolved note = (n : Text) × (note ≡ some n) × (is_empty n ≡ false)

pub record IsOrder (bound : ℕ) (o : WorkOrder) : Type 0 where
  pub described : is_empty o.order_description ≡ false
  pub noted : HasNote o.order_status o.order_note
  pub id_below : o.order_id < bound

-- The bits of the double that is infinite, above which the bits of a NaN stand.
abbrev pub infinity : Float
infinity = 0x7ff0000000000000

abbrev pub IsPositive : Float → Type 0
IsPositive q = (0 < q) × (q ≤ infinity)

abbrev pub IsNan : Float → Type 0
IsNan q = infinity < q

-- A reorder asks for an amount that is positive or a NaN, of a product in the inventory.
pub record IsReorder (inventory : List Product) (r : ReorderRow) : Type 0 where
  pub amount : IsPositive r.reorder_quantity ⊎ IsNan r.reorder_quantity
  pub known : is_some (find_product r.reorder_product inventory) ≡ true

pub record IsWellFormed (erp : Erp) : Type 0 where
  pub orders_ok : All (IsOrder erp.erp_next_uuid) erp.orders
  pub reorders_ok : All (IsReorder erp.inventory) erp.reorders
