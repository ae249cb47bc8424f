-- ===== src/Security/Headers.antt =====
-- The header of a bearer token, as `validate_token` reads it: what is left of `Bearer <token>`.
use mathlib.Core.List.{reverse, reverse-append, reverse-reverse, append-nil, append_assoc}
use processguard_ai.Security.Tokens.{bare_token}
use processguard_ai.Base.{
  All-append, strip, lower, is_space, lstrip, ℕ, ◌≡◌, refl, sym, ap, ◌∙◌, ◌≢◌, false, [], ◌∷◌, ◌++◌,
  All, Text, codes,
}

abbrev IsDark : ℕ → Type 0
IsDark c = is_space c ≡ false

All-reverse : (s : Text) → All IsDark s → All IsDark (reverse s)
All-reverse [] h = tt
All-reverse (c ∷ s) h =
    rw (reverse-append (c ∷ []) s)
      (All-append IsDark (reverse s) (c ∷ []) (All-reverse s h.1) (h.0, tt))

reverse_ne : (s : Text) → s ≢ [] → reverse s ≢ []
reverse_ne s ne e = ne (sym (reverse-reverse s) ∙ ap reverse e)

lstrip-append : (s rest : Text) → s ≢ [] → All IsDark s → lstrip (s ++ rest) ≡ s ++ rest
unfolding lstrip
lstrip-append [] rest ne h = absurd (ne refl)
lstrip-append (c ∷ s) rest ne h = rw h.0 refl

-- White space inside stays: only the ends matter.
strip_dark_ends :
    (before inner s : Text)
    → before ≢ []
    → All IsDark before
    → s ≢ []
    → All IsDark s
    → strip (before ++ (inner ++ s)) ≡ before ++ (inner ++ s)
unfolding strip
strip_dark_ends before inner s ne dark ne' dark' =
    let x = before ++ (inner ++ s) in
    let turned : reverse x ≡ reverse s ++ reverse (before ++ inner) =
      rw (← append_assoc before inner s) (reverse-append (before ++ inner) s) in
    let kept : lstrip (reverse x) ≡ reverse x =
      rw turned (lstrip-append (reverse s) _ (reverse_ne s ne') (All-reverse s dark')) in
    ap (λ y. reverse (lstrip (reverse y))) (lstrip-append before (inner ++ s) ne dark)
    ∙ ap reverse kept
    ∙ reverse-reverse x

strip_dark : (s : Text) → s ≢ [] → All IsDark s → strip s ≡ s
unfolding strip
strip_dark s ne dark =
    let kept : lstrip s ≡ s =
      ap lstrip (sym (append-nil s)) ∙ lstrip-append s [] ne dark ∙ append-nil s in
    let kept' : lstrip (reverse s) ≡ reverse s =
      ap lstrip (sym (append-nil (reverse s)))
      ∙ lstrip-append (reverse s) [] (reverse_ne s ne) (All-reverse s dark)
      ∙ append-nil (reverse s) in
    ap (λ y. reverse (lstrip (reverse y))) kept ∙ ap reverse kept' ∙ reverse-reverse s

pub bare_token-bearer : (s : Text) → s ≢ [] → All IsDark s → bare_token (codes "Bearer " ++ s) ≡ s
unfolding bare_token lower
bare_token-bearer s ne dark =
    rw
      (strip_dark_ends (codes "Bearer") (codes " ") s (λ e. cc)
        (refl, (refl, (refl, (refl, (refl, (refl, tt)))))) ne dark)
      (strip_dark s ne dark)
