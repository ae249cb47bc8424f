-- ===== src/Bus/Delivery.antt =====
-- Who hears a message.
use processguard_ai.Bus.{
  EventBus, with_payload, Topic, subscribe, add_handler, Handler, run_handlers, dispatch,
  handlers_of,
}
use processguard_ai.Base.{
  text_eq, text_eq_refl, ◌≡◌, refl, inl, inr, List, [], ◌∷◌, ◌++◌, Bool-cases, Text,
}

module _ {S P : Type 0} where
  handlers_of-add_handler :
      (t : Text) (h : Handler S P) (xs : List (Topic S P))
      → handlers_of t (add_handler t h xs) ≡ handlers_of t xs ++ h ∷ []
  unfolding handlers_of add_handler
  handlers_of-add_handler t h [] = rw (text_eq_refl t) refl
  handlers_of-add_handler t h (x ∷ xs) = elim (Bool-cases (text_eq x.topic t)) [
    | inl same ↦ rw same (rw same refl)
    | inr other ↦ rw other (rw other (handlers_of-add_handler t h xs))
  ]

  run_handlers-append :
      (hs : List (Handler S P)) (h : Handler S P) (p : P) (s : S)
      → run_handlers (hs ++ h ∷ []) (with_payload p) s
        ≡ (h p (run_handlers hs (with_payload p) s)).1
  unfolding run_handlers
  run_handlers-append [] h p s = refl
  run_handlers-append (g ∷ hs) h p s = run_handlers-append hs h p (g p s).1

  -- A new subscriber hears each well-formed message of its topic after those who subscribed before it,
  -- whether or not they raise, and they hear it as they did.
  pub dispatch-subscribe :
      (bus : EventBus S P) (t : Text) (h : Handler S P) (p : P) (s : S)
      → dispatch (subscribe t h bus) t (with_payload p) s
        ≡ (h p (dispatch bus t (with_payload p) s)).1
  unfolding dispatch subscribe
  dispatch-subscribe bus t h p s =
      rw (handlers_of-add_handler t h bus.handlers)
        (run_handlers-append (handlers_of t bus.handlers) h p s)
