-- ===== src/Mapping/Operations.antt =====
-- `CmmsOperation`, `MappingResult` and the loop of `map_recommendation_to_cmms`.
use processguard_ai.Mapping.Classify.{
  product_reorder_type, work_order_type, manual_type, text_or_empty, classify_action, ActionType,
}
use processguard_ai.Incident.{
  product_reorder, work_order, action_dict, plain_value, CmmsKind, ActionItem, Float,
}
use processguard_ai.Base.{
  strip, ℕ, ◌+◌, Bool, not, Option, none, some, List, [], ◌∷◌, ◌++◌, if◌then◌else◌, or_nonzero,
  length, is_empty, Text,
}

pub record CmmsOperation : Type 0 where
  pub kind : CmmsKind
  pub priority : ℕ
  pub source_action : Text
  pub description : Text
  pub product_key : Text
  pub quantity : Float

-- Why an action is reported and not executed.
pub data SkipReason : Type 0 where
  missing_product_key : SkipReason
  not_executable : ActionType → SkipReason

pub record MappingResult : Type 0 where
  pub operations : List CmmsOperation
  pub unmapped : List (ActionItem × SkipReason)

unfoldable pub has_operations : MappingResult → Bool
has_operations r = not (is_empty r.operations)

-- `if not isinstance(action, dict)`: such an item becomes a dict with its text.
abbrev pub as_dict : ℕ → ActionItem → ActionItem
as_dict done (plain_value t) = action_dict (some t) (some (done + 1)) none none none
as_dict done other = other

abbrev add_operation : CmmsOperation → MappingResult → MappingResult
add_operation op r = record r { operations = r.operations ++ op ∷ [] }

abbrev add_unmapped : ActionItem → SkipReason → MappingResult → MappingResult
add_unmapped a why r = record r { unmapped = r.unmapped ++ (a, why) ∷ [] }

abbrev quantity_or_zero : Option Float → Float
quantity_or_zero none = 0
quantity_or_zero (some q) = q

unfoldable pub map_typed : ActionType → ActionItem → MappingResult → MappingResult
map_typed work_order_type (action_dict action priority type key quantity) r =
    add_operation
      (record {
        kind = work_order;
        priority = or_nonzero priority 1;
        source_action = text_or_empty action;
        description = strip (text_or_empty action);
        product_key = [];
        quantity = 0;
      })
      r
map_typed product_reorder_type (action_dict action priority type key quantity) r =
    let product = strip (text_or_empty key) in
    if is_empty product
    then add_unmapped (action_dict action priority type key quantity) missing_product_key r
    else add_operation
        (record {
          kind = product_reorder;
          priority = or_nonzero priority 1;
          source_action = text_or_empty action;
          description = [];
          product_key = product;
          quantity = quantity_or_zero quantity;
        })
        r
map_typed manual_type a r = add_unmapped a (not_executable manual_type) r
-- `as_dict` leaves no such item.
map_typed _ (plain_value t) r = r

unfoldable pub type_of : ActionItem → ActionType
type_of (action_dict action priority type key quantity) = classify_action type action
type_of (plain_value t) = manual_type

unfoldable pub map_action : ActionItem → MappingResult → MappingResult
unfolding type_of map_typed
map_action item r = let a = as_dict (length r.operations) item in map_typed (type_of a) a r

unfoldable pub map_actions : List ActionItem → MappingResult → MappingResult
map_actions [] r = r
map_actions (a ∷ actions) r = map_actions actions (map_action a r)

unfoldable pub map_recommendation_to_cmms : List ActionItem → MappingResult
unfolding map_actions map_action
map_recommendation_to_cmms actions = map_actions actions (record { operations = []; unmapped = [] })
