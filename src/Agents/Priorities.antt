-- ===== src/Agents/Priorities.antt =====
-- The actions that a recommendation's text is read as.
use processguard_ai.Agents.Recommend.{Recommendation}
use processguard_ai.Agents.Parse.{
  drop_codes, empty_parse, add_item, prefixes, item_of, upper, splitlines, add_reorder, parse_lines,
  or_manual, parse_recommendation, parse_line, Reorder, ParseState,
}
use processguard_ai.Incident.{plain_value, action_dict, Float, ActionItem}
use processguard_ai.Base.{
  Result-cases, ok, ◌⊎◌, inl, true, inr, err, Bool-cases, Error, Result, strip, starts_with, if_ind,
  ℕ, suc, ◌+◌, ◌≤◌, ◌≡◌, refl, Option, none, some, List, [], ◌∷◌, ◌++◌, arith, length, Text, codes,
}

-- The priorities count up from `n`.
abbrev pub HasPriorities : ℕ → List ActionItem → Type 0
HasPriorities n [] = Unit
HasPriorities n (action_dict action (some p) kind key quantity ∷ rest) =
    (p ≡ n) × HasPriorities (suc n) rest
HasPriorities n (_ ∷ rest) = ⊥

append-HasPriorities :
    (n m : ℕ) (actions : List ActionItem) (a k key : Option Text) (q : Option Float)
    → m ≡ n + length actions
    → HasPriorities n actions
    → HasPriorities n (actions ++ action_dict a (some m) k key q ∷ [])
append-HasPriorities n m [] a k key q e h = (omega (arith, e), tt)
append-HasPriorities n m (action_dict b (some p) k2 key2 q2 ∷ rest) a k key q e h =
    (h.0, append-HasPriorities (suc n) m rest a k key q (omega (arith, e)) h.1)
append-HasPriorities n m (action_dict b none k2 key2 q2 ∷ rest) a k key q e h = absurd h
append-HasPriorities n m (plain_value t ∷ rest) a k key q e h = absurd h

add_item-HasPriorities :
    (item : Option Text) (s : ParseState)
    → HasPriorities 1 s.parsed_actions
    → HasPriorities 1 (add_item item s).parsed_actions
add_item-HasPriorities none s h = h
add_item-HasPriorities (some t) s h =
    append-HasPriorities 1 (suc (length s.parsed_actions)) s.parsed_actions _ _ _ _ (omega arith) h

-- `float` raises on the quantity of one of the lines that ask for a product.
abbrev pub HasBadReorder : (Text → Result (Option Reorder)) → Error → List Text → Type 0
HasBadReorder reorder_of e [] = ⊥
HasBadReorder reorder_of e (line ∷ lines) =
    ((starts_with (codes "PRODUCT REORDER:") (upper (strip line)) ≡ true)
      × (reorder_of (drop_codes 16 (strip line)) ≡ err e))
    ⊎ HasBadReorder reorder_of e lines

module _ (reorder_of : Text → Result (Option Reorder)) (format_g : Float → Text) where
  -- What a step over lines comes to.
  abbrev Reads : List Text → Result ParseState → Type 0
  Reads lines (err e) = HasBadReorder reorder_of e lines
  Reads lines (ok s) = HasPriorities 1 s.parsed_actions

  parse_line-Reads :
      (line : Text) (s : ParseState)
      → HasPriorities 1 s.parsed_actions
      → Reads (line ∷ []) (parse_line reorder_of format_g line s)
  unfolding parse_line
  parse_line-Reads line s h =
      elim (Bool-cases (starts_with (codes "PRODUCT REORDER:") (upper (strip line)))) [
        | inl asks ↦ elim (Result-cases (reorder_of (drop_codes 16 (strip line)))) [
          | inl (e, bad) ↦ rw (asks, parse_line) (rw bad (inl (asks, bad)))
          | inr (found, read) ↦ rw (asks, parse_line) (rw read h)
        ]
        | inr other ↦
            rw (other, parse_line)
              (if_ind (Reads (line ∷ [])) (starts_with (codes "RATIONALE:") (upper (strip line))) _
                _ h
                (if_ind (Reads (line ∷ [])) s.in_rationale _ _
                  (if_ind (λ (x : ParseState). HasPriorities 1 x.parsed_actions)
                    (starts_with (codes "HITL NOTE") (upper (strip line))) _ _ h h)
                  (add_item-HasPriorities (item_of prefixes (strip line)) s h)))
      ]

  parse_lines-Reads :
      (lines : List Text) (s : ParseState)
      → HasPriorities 1 s.parsed_actions
      → Reads lines (parse_lines reorder_of format_g lines s)
  unfolding parse_lines
  parse_lines-Reads [] s h = h
  parse_lines-Reads (line ∷ lines) s h =
      let step = parse_line-Reads line s h in
      elim (Result-cases (parse_line reorder_of format_g line s)) [
        | inl (e, raised) ↦
            rw (raised, parse_lines)
              (elim (rw raised at step) [ inl here ↦ inl here | inr never ↦ absurd never ])
        | inr (next, read) ↦
            rw (read, parse_lines)
              (further (parse_lines reorder_of format_g lines next)
                (parse_lines-Reads lines next (rw read at step)))
      ]
    where
      further : (r : Result ParseState) → Reads lines r → Reads (line ∷ lines) r
      further (err e) h = inr h
      further (ok s) h = h

  add_reorder-HasPriorities :
      (r : Option Reorder) (actions : List ActionItem)
      → HasPriorities 1 actions
      → HasPriorities 1 (add_reorder reorder_of format_g r actions)
  add_reorder-HasPriorities none actions h = h
  add_reorder-HasPriorities (some r) actions h =
      append-HasPriorities 1 (suc (length actions)) actions _ _ _ _ (omega arith) h

  or_manual-HasPriorities :
      (text : Text) (actions : List ActionItem)
      → HasPriorities 1 actions
      → HasPriorities 1 (or_manual reorder_of format_g text actions)
        × (1 ≤ length (or_manual reorder_of format_g text actions))
  or_manual-HasPriorities text [] h = ((refl, tt), omega arith)
  or_manual-HasPriorities text (a ∷ actions) h = (h, omega arith)

  -- Whatever the model writes, either reading it raises, and then what the parse of the quantity raised on
  -- one of its product reorder lines; or it is read as at least one action, and the priorities of the
  -- actions are 1, 2, 3 and so on in their order.
  pub parse_recommendation-HasPriorities :
      (text : Text)
      → ((e : Error) × (parse_recommendation reorder_of format_g text ≡ err e)
          × HasBadReorder reorder_of e (splitlines text))
        ⊎ ((parsed : Recommendation) × (parse_recommendation reorder_of format_g text ≡ ok parsed)
            × HasPriorities 1 parsed.actions
            × (1 ≤ length parsed.actions))
  unfolding parse_recommendation
  parse_recommendation-HasPriorities text =
      let reads = parse_lines-Reads (splitlines text) empty_parse tt in
      elim (Result-cases (parse_lines reorder_of format_g (splitlines text) empty_parse)) [
        | inl (e, raised) ↦ rw (raised, parse_recommendation) (inl (e, refl, rw raised at reads))
        | inr (s, read) ↦
            let (counted, one) =
              or_manual-HasPriorities text
                (add_reorder reorder_of format_g s.product_reorder_line s.parsed_actions)
                (add_reorder-HasPriorities s.product_reorder_line s.parsed_actions
                  (rw read at reads)) in
            rw (read, parse_recommendation) (inr (_, refl, counted, one))
      ]
