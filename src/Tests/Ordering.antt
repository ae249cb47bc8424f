-- ===== src/Tests/Ordering.antt =====
-- The ERP.
use processguard_ai.Db.{uuid_text}
use processguard_ai.Erp.Lifecycle.{serve_all-find_order}
use processguard_ai.Cmms.{medium_priority}
use processguard_ai.Erp.{
  order_resolved, post_resolve, visit, serve_all, Erp, WorkOrder, OrderStatus, Visit, find_order,
}
use processguard_ai.Base.{◌≡◌, refl, Option, none, some, [], ◌∷◌, Text, codes}

abbrev order : OrderStatus → Option Text → WorkOrder
order s text = record {
  order_id = 1;
  order_equipment = none;
  order_description = codes "Inspect";
  order_priority = medium_priority;
  order_status = s;
  order_requested_by = codes "agent";
  order_source = none;
  order_note = text;
  order_created_at = 1;
  order_updated_at = 1;
}

abbrev erp : OrderStatus → Option Text → Erp
erp s text = record {
  orders = order s text ∷ [];
  inventory = [];
  reorders = [];
  erp_clock = 5;
  erp_next_uuid = 2;
}

abbrev resolve_again : Visit
resolve_again = visit (some (codes "key")) (post_resolve (uuid_text 1) (some (codes "done")))

serve_all-find_order_example :
    find_order 1
      (serve_all
        (codes "key")
        (resolve_again ∷ resolve_again ∷ [])
        (erp order_resolved (some (codes "fixed")))).orders
    ≡ some (order order_resolved (some (codes "fixed")))
serve_all-find_order_example =
    serve_all-find_order (codes "key") 1 (order order_resolved (some (codes "fixed")))
      (resolve_again ∷ resolve_again ∷ []) (erp order_resolved (some (codes "fixed"))) refl refl
