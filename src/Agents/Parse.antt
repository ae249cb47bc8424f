-- ===== src/Agents/Parse.antt =====
-- `_parse_recommendation` of agent-service/app/agents/recommendation/agent.py. What the regular
-- expression of `_parse_product_reorder` finds and the `:g` format of a double are parameters; `float`
-- raises on a quantity such as 1.2.3, which the expression lets through.
use processguard_ai.Agents.Recommend.{Recommendation}
use processguard_ai.Incident.{Float, ActionItem, action_dict}
use processguard_ai.Base.{
  ok, err, Result, text_eq, strip, starts_with, ℕ, zero, suc, ◌-◌, Bool, true, false, not, ◌&&◌,
  ◌||◌, Option, none, some, List, [], ◌∷◌, ◌++◌, map, leb, ◌==◌, if◌then◌else◌, length, take,
  is_empty, Text, codes,
}

pub record Reorder : Type 0 where
  pub reorder_key : Text
  pub reorder_amount : Float
  pub reorder_reason : Text

abbrev pub is_break : ℕ → Bool
is_break c = leb 10 c && leb c 13 || leb 28 c && leb c 30 || c == 133 || c == 8232 || c == 8233

-- `str.splitlines`: a carriage return takes the line feed behind it along, and nothing behind
-- the last break is no line. `line` is what stands before.
abbrev pub split_loop : Bool → Text → Text → List Text
split_loop after_return [] [] = []
split_loop after_return (l ∷ line) [] = (l ∷ line) ∷ []
split_loop after_return line (c ∷ t) =
    let skipped = split_loop false line t in
    let broken = split_loop (c == 13) [] t in
    let longer = split_loop false (line ++ c ∷ []) t in
    if after_return && c == 10 then skipped else if is_break c then line ∷ broken else longer

unfoldable pub splitlines : Text → List Text
splitlines t = split_loop false [] t

abbrev upper_code : ℕ → ℕ
upper_code c = if leb b'a' c && leb c b'z' then c - 32 else c

unfoldable pub upper : Text → Text
upper t = map upper_code t

abbrev pub drop_codes : ℕ → Text → Text
drop_codes zero t = t
drop_codes (suc n) [] = []
drop_codes (suc n) (c ∷ t) = drop_codes n t

abbrev pub prefixes : List Text
prefixes =
    codes "1."
    ∷ codes "2."
    ∷ codes "3."
    ∷ codes "4."
    ∷ codes "5."
    ∷ codes "6."
    ∷ codes "7."
    ∷ codes "8."
    ∷ codes "9."
    ∷ codes "-"
    ∷ codes "*"
    ∷ []

-- The text of a list item, for the first prefix that it has and is longer than.
unfoldable pub item_of : List Text → Text → Option Text
item_of [] stripped = none
item_of (p ∷ ps) stripped =
    let later = item_of ps stripped in
    if starts_with p stripped && not (text_eq stripped p)
    then some (strip (drop_codes (length p) stripped))
    else later

pub record ParseState : Type 0 where
  pub parsed_actions : List ActionItem
  pub rationale_parts : List Text
  pub product_reorder_line : Option Reorder
  pub in_rationale : Bool

-- `actions.append({"action": …, "priority": len(actions) + 1, "type": "work_order"})`
abbrev pub add_item : Option Text → ParseState → ParseState
add_item none s = s
add_item (some item) s = record s {
  parsed_actions =
      s.parsed_actions
      ++ action_dict (some item) (some (suc (length s.parsed_actions))) (some (codes "work_order"))
          none none
        ∷ [];
}

abbrev pub empty_parse : ParseState
empty_parse = record {
  parsed_actions = [];
  rationale_parts = [];
  product_reorder_line = none;
  in_rationale = false;
}

module _ (reorder_of : Text → Result (Option Reorder)) (format_g : Float → Text) where
  abbrev pub keep_reorder : Result (Option Reorder) → ParseState → Result ParseState
  keep_reorder (err e) s = err e
  keep_reorder (ok found) s = ok (record s { product_reorder_line = found })

  unfoldable pub parse_line : Text → ParseState → Result ParseState
  unfolding item_of
  parse_line line s =
      let stripped = strip line in
      if starts_with (codes "PRODUCT REORDER:") (upper stripped)
      then keep_reorder (reorder_of (drop_codes 16 stripped)) s
      else if starts_with (codes "RATIONALE:") (upper stripped)
      then ok (record s {
        in_rationale = true;
        rationale_parts = s.rationale_parts ++ strip (drop_codes 10 stripped) ∷ [];
      })
      else if s.in_rationale
      then ok (
          if starts_with (codes "HITL NOTE") (upper stripped)
          then record s { in_rationale = false }
          else record s { rationale_parts = s.rationale_parts ++ stripped ∷ [] })
      else ok (add_item (item_of prefixes stripped) s)

  unfoldable pub parse_lines : List Text → ParseState → Result ParseState
  unfolding parse_line
  parse_lines [] s = ok s
  parse_lines (line ∷ lines) s = elim (parse_line line s) [
    | err e ↦ err e
    | ok next ↦ parse_lines lines next
  ]

  abbrev pub add_reorder : Option Reorder → List ActionItem → List ActionItem
  add_reorder none actions = actions
  add_reorder (some r) actions =
      actions
      ++ action_dict
          (some (
            codes "Reorder "
            ++ format_g r.reorder_amount
            ++ codes " of "
            ++ r.reorder_key
            ++ codes " ("
            ++ r.reorder_reason
            ++ codes ")"))
          (some (suc (length actions))) (some (codes "product_reorder")) (some r.reorder_key)
          (some r.reorder_amount)
        ∷ []

  -- `[:400]` of the whole text, where no action was found.
  abbrev pub or_manual : Text → List ActionItem → List ActionItem
  or_manual text [] =
      action_dict
        (some
          (take 400 (strip (if is_empty text then codes "No specific action parsed" else text))))
        (some 1) (some (codes "manual")) none none
      ∷ []
  or_manual text (a ∷ actions) = a ∷ actions

  abbrev join_parts : List Text → Text
  join_parts [] = []
  join_parts ([] ∷ parts) = join_parts parts
  join_parts ((c ∷ p) ∷ parts) =
      let rest = join_parts parts in if is_empty rest then c ∷ p else (c ∷ p) ++ b' ' ∷ rest

  unfoldable pub parse_recommendation : Text → Result Recommendation
  unfolding parse_lines splitlines
  parse_recommendation text = elim (parse_lines (splitlines text) empty_parse) [
    | err e ↦ err e
    | ok s ↦ ok (record {
      actions = or_manual text (add_reorder s.product_reorder_line s.parsed_actions);
      rationale = strip (join_parts s.rationale_parts);
    })
  ]
