-- ===== src/Erp/Orders.antt =====
-- The work-order handlers.
use processguard_ai.Erp.Store.{
  requested_by_of, priority_of, or_text, update_order, find_order, uuid_or_none, order_open, Erp,
  order_resolved, OrderStatus, OrderBody, WorkOrder,
}
use processguard_ai.Db.{uuid_text, malformed, IdText}
use mathlib.Core.List.{reverse}
use processguard_ai.Base.{
  strip, http_error, text_eq, ℕ, suc, Bool, true, false, ◌&&◌, Option, none, some, List, [], ◌∷◌,
  ◌++◌, ◌==◌, if◌then◌else◌, take, keep, is_empty, Text, codes, Result, ok, err,
}

abbrev new_order : OrderBody → Text → Erp → WorkOrder
new_order b description erp = record {
  order_id = erp.erp_next_uuid;
  order_equipment = uuid_or_none b.body_equipment;
  order_description = description;
  order_priority = priority_of b.body_priority;
  order_status = order_open;
  order_requested_by = requested_by_of b.body_requested_by;
  order_source = uuid_or_none b.body_source;
  order_note = none;
  order_created_at = erp.erp_clock;
  order_updated_at = erp.erp_clock;
}

unfoldable pub create_work_order : OrderBody → Erp → Result WorkOrder × Erp
create_work_order b erp =
    let description = strip (or_text b.body_description []) in
    let row = new_order b description erp in
    if is_empty description then (err (http_error 422), erp) else (
      ok row,
      record erp { orders = erp.orders ++ row ∷ []; erp_next_uuid = suc erp.erp_next_uuid },
    )

abbrev status_text : OrderStatus → Text
status_text order_open = codes "open"
status_text order_resolved = codes "resolved"

-- An empty filter is none. A filter whose id does not parse compares with NULL: no row passes it.
abbrev passes_equipment : Option IdText → WorkOrder → Bool
passes_equipment none o = true
passes_equipment (some (malformed t)) o = false
passes_equipment (some (uuid_text u)) o = elim o.order_equipment [ none ↦ false | some v ↦ v == u ]

abbrev passes_status : Option Text → WorkOrder → Bool
passes_status none o = true
passes_status (some []) o = true
passes_status (some (c ∷ t)) o = text_eq (status_text o.order_status) (c ∷ t)

-- ORDER BY "CreatedAt" DESC LIMIT 200: rows are inserted in the order of `NOW()`.
unfoldable pub list_work_orders : Option IdText → Option Text → Erp → List WorkOrder
list_work_orders equipment status erp =
    take 200
      (reverse (keep (λ o. passes_equipment equipment o && passes_status status o) erp.orders))

-- `_fetch_order` with the 404 behind it.
unfoldable pub fetch_order : IdText → Erp → Result WorkOrder
fetch_order (malformed t) erp = err (http_error 422)
fetch_order (uuid_text u) erp = elim (find_order u erp.orders) [
  | none ↦ err (http_error 404)
  | some o ↦ ok o
]

abbrev pub resolve_row : Text → ℕ → WorkOrder → WorkOrder
resolve_row note now o = record o {
  order_status = order_resolved;
  order_note = some note;
  order_updated_at = now;
}

abbrev pub is_resolved : OrderStatus → Bool
is_resolved order_resolved = true
is_resolved order_open = false

-- The checks behind the fetch, and the UPDATE.
unfoldable pub resolve_found : WorkOrder → Text → Erp → Result WorkOrder × Erp
resolve_found o note erp =
    if is_resolved o.order_status
    then (err (http_error 409), erp)
    else if is_empty note
    then (err (http_error 422), erp)
    else (
      ok (resolve_row note erp.erp_clock o),
      record erp { orders = update_order o.order_id (resolve_row note erp.erp_clock) erp.orders },
    )

unfoldable pub resolve_work_order : IdText → Option Text → Erp → Result WorkOrder × Erp
resolve_work_order t resolution_note erp = elim (fetch_order t erp) [
  | err e ↦ (err e, erp)
  | ok o ↦ resolve_found o (strip (or_text resolution_note [])) erp
]
