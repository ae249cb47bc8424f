-- ===== src/Erp/Store.antt =====
-- The tables cmms_work_orders, cmms_inventory and cmms_reorder_requests, newest row last, the values
-- that the requests carry, and the helpers `_uuid_or_none` and `_priority`.
use processguard_ai.Cmms.{medium_priority, high_priority, low_priority, PriorityWord}
use processguard_ai.Db.{parse_uuid, IdText}
use processguard_ai.Incident.{Uuid, Float}
use processguard_ai.Base.{
  lower, text_eq, ℕ, Option, none, some, List, [], ◌∷◌, ◌==◌, if◌then◌else◌, take, Text, codes,
}

pub data OrderStatus : Type 0 where
  order_open order_resolved : OrderStatus

pub record WorkOrder : Type 0 where
  pub order_id : Uuid
  pub order_equipment : Option Uuid
  pub order_description : Text
  pub order_priority : PriorityWord
  pub order_status : OrderStatus
  pub order_requested_by : Text
  pub order_source : Option Uuid
  pub order_note : Option Text
  pub order_created_at : ℕ
  pub order_updated_at : ℕ

pub record Product : Type 0 where
  pub product_key : Text
  pub name : Text
  pub quantity_on_hand : Float
  pub reorder_threshold : Float
  pub unit : Text

pub record ReorderRow : Type 0 where
  pub reorder_row_id : Uuid
  pub reorder_product : Text
  pub reorder_quantity : Float
  pub reorder_source : Option Uuid
  pub reorder_requested_by : Text

pub record Erp : Type 0 where
  pub orders : List WorkOrder
  pub inventory : List Product
  pub reorders : List ReorderRow
  pub erp_clock : ℕ
  pub erp_next_uuid : ℕ

-- `body` of POST /work-orders; a missing key and JSON's null are `none`.
pub record OrderBody : Type 0 where
  pub body_description : Option Text
  pub body_equipment : Option IdText
  pub body_priority : Option Text
  pub body_requested_by : Option Text
  pub body_source : Option IdText

-- What `float(body.get("quantity") or 0)` finds: no number, a negative one, or another one.
pub data Quantity : Type 0 where
  not_a_number negative : Quantity
  quantity : Float → Quantity

pub record ReorderBody : Type 0 where
  pub wanted : Quantity
  pub wanted_source : Option IdText
  pub wanted_by : Option Text

-- `str(value or default)`.
abbrev pub or_text : Option Text → Text → Text
or_text none d = d
or_text (some []) d = d
or_text (some (c ∷ t)) d = c ∷ t

unfoldable pub uuid_or_none : Option IdText → Option Uuid
uuid_or_none none = none
uuid_or_none (some t) = parse_uuid t

unfoldable pub priority_of : Option Text → PriorityWord
priority_of value =
    let word = lower (or_text value (codes "medium")) in
    if text_eq word (codes "low")
    then low_priority
    else if text_eq word (codes "high")
    then high_priority
    else medium_priority

abbrev pub requested_by_of : Option Text → Text
requested_by_of value = take 200 (or_text value (codes "unknown"))

-- SELECT * FROM cmms_work_orders WHERE "Id" = $1
abbrev pub find_order : Uuid → List WorkOrder → Option WorkOrder
find_order u [] = none
find_order u (o ∷ os) = if o.order_id == u then some o else find_order u os

-- UPDATE cmms_work_orders SET … WHERE "Id" = $1
abbrev pub update_order : Uuid → (WorkOrder → WorkOrder) → List WorkOrder → List WorkOrder
update_order u f [] = []
update_order u f (o ∷ os) = (if o.order_id == u then f o else o) ∷ update_order u f os

-- SELECT * FROM cmms_inventory WHERE "ProductKey" = $1
abbrev pub find_product : Text → List Product → Option Product
find_product k [] = none
find_product k (p ∷ ps) = if text_eq p.product_key k then some p else find_product k ps
