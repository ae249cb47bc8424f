-- ===== src/Erp/Serve.antt =====
-- All endpoints as one server, with the dependency `require_api_key` in front of each.
use processguard_ai.Erp.Stock.{reorder, get_inventory}
use processguard_ai.Erp.Orders.{
  resolve_work_order, fetch_order, list_work_orders, create_work_order,
}
use processguard_ai.Db.{IdText}
use processguard_ai.Erp.Store.{ReorderBody, or_text, ReorderRow, Product, OrderBody, Erp, WorkOrder}
use processguard_ai.Base.{
  http_error, text_eq, Option, List, [], ◌∷◌, if◌then◌else◌, Text, Result, ok, err,
}

pub data ErpRequest : Type 0 where
  post_order : OrderBody → ErpRequest
  list_orders : Option IdText → Option Text → ErpRequest
  get_order : IdText → ErpRequest
  post_resolve : IdText → Option Text → ErpRequest
  get_stock : Text → ErpRequest
  post_reorder : Text → ReorderBody → ErpRequest

pub data ErpAnswer : Type 0 where
  order_answer : WorkOrder → ErpAnswer
  orders_answer : List WorkOrder → ErpAnswer
  stock_answer : Product → ErpAnswer
  reorder_answer : ReorderRow → ErpAnswer

abbrev answer_with : {A : Type 0} → (A → ErpAnswer) → Result A → Result ErpAnswer
answer_with f (ok a) = ok (f a)
answer_with f (err e) = err e

unfoldable pub route : ErpRequest → Erp → Result ErpAnswer × Erp
route (post_order b) erp =
    let (out, after) = create_work_order b erp in (answer_with order_answer out, after)
route (list_orders e s) erp = (ok (orders_answer (list_work_orders e s erp)), erp)
route (get_order t) erp = (answer_with order_answer (fetch_order t erp), erp)
route (post_resolve t note) erp =
    let (out, after) = resolve_work_order t note erp in (answer_with order_answer out, after)
route (get_stock k) erp = (answer_with stock_answer (get_inventory k erp), erp)
route (post_reorder k b) erp =
    let (out, after) = reorder k b erp in (answer_with reorder_answer out, after)

-- `require_api_key`: the header defaults to the empty text.
unfoldable pub serve : Text → Option Text → ErpRequest → Erp → Result ErpAnswer × Erp
serve api_key header r erp =
    if text_eq (or_text header []) api_key then route r erp else (err (http_error 401), erp)

pub data Visit : Type 0 where
  visit : Option Text → ErpRequest → Visit

-- A run of requests, whoever sends them.
unfoldable pub serve_all : Text → List Visit → Erp → Erp
serve_all api_key [] erp = erp
serve_all api_key (visit header r ∷ rest) erp =
    serve_all api_key rest (serve api_key header r erp).1
