-- ===== src/Erp/Stock.antt =====
-- The inventory handlers.
use processguard_ai.Erp.Store.{
  Quantity, negative, requested_by_of, uuid_or_none, quantity, not_a_number, find_product, Product,
  ReorderRow, ReorderBody, Erp,
}
use processguard_ai.Base.{
  http_error, suc, none, some, [], ◌∷◌, ◌++◌, ◌==◌, if◌then◌else◌, Text, Result, ok, err,
}

unfoldable pub get_inventory : Text → Erp → Result Product
get_inventory k erp = elim (find_product k erp.inventory) [
  | none ↦ err (http_error 404)
  | some p ↦ ok p
]

-- Behind the lookup of the product. `quantity <= 0` on a number that is not negative: the double 0.0
-- has the bits 0.
unfoldable pub record_reorder : Text → Quantity → ReorderBody → Erp → Result ReorderRow × Erp
record_reorder k not_a_number b erp = (err (http_error 422), erp)
record_reorder k negative b erp = (err (http_error 422), erp)
record_reorder k (quantity q) b erp =
    let row : ReorderRow = record {
      reorder_row_id = erp.erp_next_uuid;
      reorder_product = k;
      reorder_quantity = q;
      reorder_source = uuid_or_none b.wanted_source;
      reorder_requested_by = requested_by_of b.wanted_by;
    } in
    if q == 0 then (err (http_error 422), erp) else (
      ok row,
      record erp { reorders = erp.reorders ++ row ∷ []; erp_next_uuid = suc erp.erp_next_uuid },
    )

unfoldable pub reorder : Text → ReorderBody → Erp → Result ReorderRow × Erp
reorder k b erp = elim (find_product k erp.inventory) [
  | none ↦ (err (http_error 404), erp)
  | some p ↦ record_reorder k b.wanted b erp
]
