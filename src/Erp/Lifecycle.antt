-- ===== src/Erp/Lifecycle.antt =====
-- What every request keeps of the ERP's tables: refusals change nothing, a resolved work order stays
-- as it is.
use processguard_ai.Db.{IdText, uuid_text, malformed}
use processguard_ai.Erp.Stock.{record_reorder, reorder}
use processguard_ai.Erp.Orders.{
  fetch_order, is_resolved, resolve_found, resolve_row, resolve_work_order, create_work_order,
}
use processguard_ai.Erp.Serve.{
  ErpAnswer, visit, Visit, serve_all, serve, post_reorder, get_stock, post_resolve, get_order,
  list_orders, post_order, ErpRequest, route,
}
use processguard_ai.Erp.Store.{or_text, update_order, order_resolved, find_order, Erp, WorkOrder}
use processguard_ai.Incident.{Uuid}
use processguard_ai.Base.{
  Result-cases, strip, if_ind, some-injective, text_eq, ℕ, ◌≡◌, refl, sym, ap, ◌∙◌, ◌≢◌, inl, inr,
  Option, some, List, [], ◌∷◌, ◌++◌, arith, ◌==◌, Bool-cases, Option-cases, is_empty, Text, Result,
  ok, err, Error,
}

route-refused :
    (r : ErpRequest) (erp : Erp) (e : Error) → (route r erp).0 ≡ err e → (route r erp).1 ≡ erp
unfolding route create_work_order resolve_work_order resolve_found reorder record_reorder
route-refused (post_order b) erp e h = ground arith
route-refused (list_orders x s) erp e h = refl
route-refused (get_order t) erp e h = refl
route-refused (post_resolve t words) erp e h = ground arith
route-refused (get_stock k) erp e h = refl
route-refused (post_reorder k b) erp e h = ground arith

find_order-id :
    (u : Uuid) (os : List WorkOrder) (o : WorkOrder) → find_order u os ≡ some o → o.order_id ≡ u
find_order-id u [] o e = ground arith
find_order-id u (x ∷ os) o e = ground (arith, find_order-id u os o)

find_order-append :
    (u : Uuid) (os rest : List WorkOrder) (o : WorkOrder)
    → find_order u os ≡ some o
    → find_order u (os ++ rest) ≡ some o
find_order-append u [] rest o e = ground arith
find_order-append u (x ∷ os) rest o e = ground (arith, find_order-append u os rest o)

find_order-other :
    (u v : Uuid) (note : Text) (now : ℕ) (os : List WorkOrder)
    → u ≢ v
    → find_order u (update_order v (resolve_row note now) os) ≡ find_order u os
find_order-other u v note now [] n = refl
find_order-other u v note now (x ∷ os) n = ground (arith, find_order-other u v note now os n)

-- An answer that is an error, the refusal of a wrong API key included, has changed nothing.
pub serve-refused :
    (api_key : Text) (header : Option Text) (r : ErpRequest) (erp : Erp) (e : Error)
    → (serve api_key header r erp).0 ≡ err e
    → (serve api_key header r erp).1 ≡ erp
unfolding serve
serve-refused api_key header r erp e h = elim (Bool-cases (text_eq (or_text header []) api_key)) [
  | inl good ↦ rw good (route-refused r erp e (rw (good, serve) at h))
  | inr bad ↦ rw bad refl
]

-- Resolving one order leaves each resolved order as it is, that one included.
resolve_found-find_order :
    (u : Uuid) (o x : WorkOrder) (words : Text) (erp : Erp)
    → find_order u erp.orders ≡ some o
    → o.order_status ≡ order_resolved
    → find_order x.order_id erp.orders ≡ some x
    → find_order u (resolve_found x words erp).1.orders ≡ some o
unfolding resolve_found
resolve_found-find_order u o x words erp f s fx = elim (Bool-cases (x.order_id == u)) [
  | inl same ↦
      let id_same : x.order_id ≡ u = ground arith in
      let x_same : x ≡ o = some-injective x o (sym fx ∙ rw id_same f) in
      let done : x.order_status ≡ order_resolved = rw x_same s in rw (done, resolve_found) f
  | inr other ↦
      let apart : u ≢ x.order_id = λ e. ground arith in
      if_ind (λ (p : Result WorkOrder × Erp). find_order u p.1.orders ≡ some o)
        (is_resolved x.order_status) _ _ f
        (if_ind (λ (p : Result WorkOrder × Erp). find_order u p.1.orders ≡ some o) (is_empty words)
          _ _ f (find_order-other u x.order_id words erp.erp_clock erp.orders apart ∙ f))
]

fetch_order-find_order :
    (t : IdText) (erp : Erp) (x : WorkOrder)
    → fetch_order t erp ≡ ok x
    → find_order x.order_id erp.orders ≡ some x
unfolding fetch_order
fetch_order-find_order (malformed t) erp x h = ground arith
fetch_order-find_order (uuid_text v) erp x h = elim (Option-cases (find_order v erp.orders)) [
  | inl missing ↦ ground arith
  | inr (y, e) ↦
      let same : y ≡ x = ground arith in
      rw (sym same)
        (ap (λ (w : Uuid). find_order w erp.orders) (find_order-id v erp.orders y e) ∙ e)
]

route-find_order :
    (u : Uuid) (o : WorkOrder) (r : ErpRequest) (erp : Erp)
    → find_order u erp.orders ≡ some o
    → o.order_status ≡ order_resolved
    → find_order u (route r erp).1.orders ≡ some o
unfolding route create_work_order resolve_work_order reorder record_reorder
route-find_order u o (post_order b) erp f s =
    if_ind (λ (p : Result WorkOrder × Erp). find_order u p.1.orders ≡ some o)
      (is_empty (strip (or_text b.body_description []))) _ _ f
      (find_order-append u erp.orders _ o f)
route-find_order u o (list_orders x w) erp f s = f
route-find_order u o (get_order t) erp f s = f
route-find_order u o (post_resolve t words) erp f s = elim (Result-cases (fetch_order t erp)) [
  | inl (e, failed) ↦ rw (failed, resolve_work_order) f
  | inr (x, found) ↦
      rw (found, resolve_work_order)
        (resolve_found-find_order u o x (strip (or_text words [])) erp f s
          (fetch_order-find_order t erp x found))
]
route-find_order u o (get_stock k) erp f s = f
route-find_order u o (post_reorder k b) erp f s = ground arith

-- A resolved work order stays exactly as it is, whatever requests follow and whoever sends them.
pub serve_all-find_order :
    (api_key : Text) (u : Uuid) (o : WorkOrder) (visits : List Visit) (erp : Erp)
    → find_order u erp.orders ≡ some o
    → o.order_status ≡ order_resolved
    → find_order u (serve_all api_key visits erp).orders ≡ some o
unfolding serve_all serve
serve_all-find_order api_key u o [] erp f s = f
serve_all-find_order api_key u o (visit header r ∷ rest) erp f s =
    serve_all-find_order api_key u o rest (serve api_key header r erp).1
      (if_ind (λ (p : Result ErpAnswer × Erp). find_order u p.1.orders ≡ some o)
        (text_eq (or_text header []) api_key) _ _ (route-find_order u o r erp f s) f)
      s
