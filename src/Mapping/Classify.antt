-- ===== src/Mapping/Classify.antt =====
-- `classify_action`: the closed vocabulary of external operations.
use processguard_ai.Base.{
  strip, text_eq, lower, contains_text, Option, none, some, List, [], ◌∷◌, if◌then◌else◌, any, Text,
  codes,
}

pub data ActionType : Type 0 where
  work_order_type product_reorder_type manual_type : ActionType

abbrev pub work_order_hints : List Text
work_order_hints =
    codes "inspect"
    ∷ codes "repair"
    ∷ codes "replace"
    ∷ codes "service"
    ∷ codes "check"
    ∷ codes "verify"
    ∷ codes "schedule"
    ∷ codes "backwash"
    ∷ codes "clean"
    ∷ codes "test"
    ∷ codes "calibrate"
    ∷ codes "maintain"
    ∷ codes "maintenance"
    ∷ []

abbrev pub reorder_hints : List Text
reorder_hints =
    codes "reorder" ∷ codes "order" ∷ codes "restock" ∷ codes "chemical" ∷ codes "product" ∷ []

-- `str(action.get(key) or "")`
abbrev pub text_or_empty : Option Text → Text
text_or_empty none = []
text_or_empty (some t) = t

-- `declared in _KNOWN_TYPES`, with the type that is meant.
unfoldable pub known_type : Text → Option ActionType
known_type declared =
    if text_eq declared (codes "work_order")
    then some work_order_type
    else if text_eq declared (codes "product_reorder")
    then some product_reorder_type
    else if text_eq declared (codes "manual")
    then some manual_type
    else none

unfoldable pub classify_text : Text → ActionType
classify_text text =
    if any (λ h. contains_text h text) work_order_hints
    then work_order_type
    else if any (λ h. contains_text h text) reorder_hints
    then product_reorder_type
    else manual_type

unfoldable pub classify_action : Option Text → Option Text → ActionType
classify_action type action = elim (known_type (lower (strip (text_or_empty type)))) [
  | some declared ↦ declared
  | none ↦ classify_text (lower (text_or_empty action))
]
