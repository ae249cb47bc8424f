-- ===== src/Mapping/Accounting.antt =====
-- What the mapping promises: nothing is lost, and nothing is guessed into an external write.
use processguard_ai.Mapping.Classify.{
  manual_type, product_reorder_type, work_order_type, text_or_empty,
}
use processguard_ai.Incident.{
  Float, plain_value, action_dict, product_reorder, ActionItem, work_order,
}
use processguard_ai.Mapping.Operations.{
  missing_product_key, not_executable, SkipReason, as_dict, type_of, CmmsOperation, MappingResult,
}
use processguard_ai.Base.{◌++◌, suc, strip, ℕ, ◌≡◌, ◌≢◌, ◌⊎◌, Option, some, List, [], ◌∷◌, Text}

abbrev text_of : ActionItem → Text
text_of (plain_value t) = t
text_of (action_dict action priority type key quantity) = text_or_empty action

-- What an action may be executed as: its own text as a work order where it is classified as one, or a
-- reorder of the product and the amount that it names where it is classified as that.
abbrev pub IsExecutedAs : ActionItem → CmmsOperation → Type 0
IsExecutedAs a op =
    (op.source_action ≡ text_of a)
    × ((op.kind ≡ work_order) × (type_of a ≡ work_order_type) × (op.description ≡ strip (text_of a))
        ⊎ (op.kind ≡ product_reorder)
          × (type_of a ≡ product_reorder_type)
          × ((priority : Option ℕ) × (key : Option Text) × (quantity : Option Float)
              × (action : Option Text) × (type : Option Text) × (a
                  ≡ action_dict action priority type key quantity)
              × (op.product_key ≡ strip (text_or_empty key))
              × (op.product_key ≢ [])
              × ((q : Float) → quantity ≡ some q → op.quantity ≡ q)))

-- What is reported instead: a manual action, or a reorder without a product.
abbrev pub IsReported : ActionItem → SkipReason → Type 0
IsReported a missing_product_key = type_of a ≡ product_reorder_type
IsReported a (not_executable kind) = (kind ≡ manual_type) × (type_of a ≡ manual_type)

-- The actions in their order, each with its operation or its report, and nothing else.
abbrev pub Splits :
    ℕ → List ActionItem → List CmmsOperation → List (ActionItem × SkipReason) → Type 0
Splits done [] ops skips = (ops ≡ []) × (skips ≡ [])
Splits done (item ∷ items) ops skips =
    let a = as_dict done item in
    ((op : CmmsOperation) × (rest : List CmmsOperation) × (ops ≡ op ∷ rest)
      × IsExecutedAs a op
      × Splits (suc done) items rest skips)
    ⊎ ((why : SkipReason) × (rest : List (ActionItem × SkipReason)) × (skips ≡ (a, why) ∷ rest)
        × IsReported a why
        × Splits done items ops rest)

-- What one item adds to the result.
abbrev Added : ActionItem → MappingResult → MappingResult → Type 0
Added a r after =
    ((op : CmmsOperation) × (after
        ≡ record { operations = r.operations ++ op ∷ []; unmapped = r.unmapped })
      × IsExecutedAs a op)
    ⊎ ((why : SkipReason) × (after
          ≡ record { operations = r.operations; unmapped = r.unmapped ++ (a, why) ∷ [] })
        × IsReported a why)
