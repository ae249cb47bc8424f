-- ===== src/Oidc/History.antt =====
-- oidc-provider/app/main.py: where the codes in the store come from. A history lists the requests with
-- the latest first, from an empty store.
use processguard_ai.Oidc.Serve.{token_endpoint}
use processguard_ai.Oidc.Redeem.{
  ClientRequest, authorizes, exchanges, serve_request, run_requests, authorize_post_ind,
}
use processguard_ai.Oidc.{
  User, Config, CodeRecord, CodeStore, Jwt, TokenForm, TokenDraw, AuthorizeForm, AuthorizeDraw,
  find_code, remove_code, put_code, cleanup_codes, code_grant, token_endpoint, code_record,
  authenticated, is_bad_request,
}
use mathlib.Core.Path.{subst}
use processguard_ai.Base.{
  All-keep, text_eq_sound, text_eq_refl, if_ind, All-imp, text_eq, ℕ, ◌≡◌, refl, sym, ◌⊎◌, inl, inr,
  true, false, some, List, [], ◌∷◌, arith, Bool-cases, Option-cases, All, Text,
}

-- Some request of the history fulfils the predicate.
abbrev pub Somewhere : (ClientRequest → Type 0) → List ClientRequest → Type 0
Somewhere P [] = ⊥
Somewhere P (q ∷ qs) = P q ⊎ Somewhere P qs

pub Somewhere-imp :
    (P Q : ClientRequest → Type 0)
    → ((q : ClientRequest) → P q → Q q)
    → (rs : List ClientRequest) → Somewhere P rs
    → Somewhere Q rs
Somewhere-imp P Q f [] h = elim h [ ]
Somewhere-imp P Q f (q ∷ qs) (inl here) = inl (f q here)
Somewhere-imp P Q f (q ∷ qs) (inr there) = inr (Somewhere-imp P Q f qs there)

module _ (config : Config) (scrypt : Text → List ℕ → List ℕ) where
  -- A sign-in that passed every check of POST /authorize and put this record under this code.
  pub record SignedIn (code : Text) (r : CodeRecord) (form : AuthorizeForm) (draw : AuthorizeDraw)
      (u : User) : Type 0 where
    pub asked : is_bad_request config form.response_type form.client_id form.redirect_uri ≡ false
    pub knew_password : authenticated scrypt draw.salt form.email form.password ≡ some u
    pub drew : draw.code ≡ code
    pub recorded : r ≡ code_record form draw u

  abbrev pub Put : Text → CodeRecord → ClientRequest → Type 0
  Put code r (exchanges form draw) = ⊥
  Put code r (authorizes form draw) = (u : User) × SignedIn code r form draw u

  pub record Known (rs : List ClientRequest) (e : Text × CodeRecord) : Type 0 where
    pub origin : Somewhere (Put e.0 e.1) rs

  Known-later :
      (rs : List ClientRequest) (q : ClientRequest) (e : Text × CodeRecord)
      → Known rs e
      → Known (q ∷ rs) e
  Known-later rs q e k = record { origin = inr k.origin }

  All-remove_code :
      (P : Text × CodeRecord → Type 0) (code : Text) (s : CodeStore)
      → All P s
      → All P (remove_code code s)
  unfolding remove_code
  All-remove_code P code [] h = tt
  All-remove_code P code ((c, r) ∷ s) h =
      if_ind (All P) (text_eq c code) _ _ (All-remove_code P code s h.1)
        (h.0, All-remove_code P code s h.1)

  All-cleanup_codes :
      (P : Text × CodeRecord → Type 0) (now : ℕ) (s : CodeStore)
      → All P s
      → All P (cleanup_codes config now s)
  unfolding cleanup_codes
  All-cleanup_codes P now s h = All-keep P _ s h

  -- The new record may stand under any text equal to the code.
  All-put_code :
      (P : Text × CodeRecord → Type 0) (code : Text) (r : CodeRecord) (s : CodeStore)
      → ((c : Text) → text_eq c code ≡ true → P (c, r))
      → All P s
      → All P (put_code code r s)
  unfolding put_code
  All-put_code P code r [] new h = (new code (text_eq_refl code), tt)
  All-put_code P code r ((c, r') ∷ s) new h = elim (Bool-cases (text_eq c code)) [
    | inl same ↦ rw same (new c same, h.1)
    | inr other ↦ rw other (h.0, All-put_code P code r s new h.1)
  ]

  pub find_code-All :
      (P : Text × CodeRecord → Type 0) (code : Text) (s : CodeStore) (r : CodeRecord)
      → All P s
      → find_code code s ≡ some r
      → (c : Text) × (text_eq c code ≡ true) × P (c, r)
  unfolding find_code
  find_code-All P code [] r h e = cc
  find_code-All P code ((c, r') ∷ s) r h e = elim (Bool-cases (text_eq c code)) [
    | inl same ↦ let got : r' ≡ r = ground arith in (c, same, subst (λ x. P (c, x)) got h.0)
    | inr other ↦ find_code-All P code s r h.1 (rw other at e)
  ]

  module _ (jwt : Jwt) (uuid5 digest : Text → Text) where
    abbrev pub after : List ClientRequest → CodeStore
    after rs = run_requests config jwt uuid5 digest scrypt rs []

    code_grant-All :
        (P : Text × CodeRecord → Type 0) (form : TokenForm) (draw : TokenDraw) (s : CodeStore)
        → All P s
        → All P (code_grant config jwt uuid5 digest form draw s).1
    unfolding code_grant
    code_grant-All P form draw s h = elim (Option-cases (find_code form.code s)) [
      | inl absent ↦ rw (absent, code_grant) h
      | inr (r, there) ↦ rw (there, code_grant) (All-remove_code P form.code s h)
    ]

    token_store :
        (form : TokenForm) (draw : TokenDraw) (s : CodeStore)
        → ((token_endpoint config jwt uuid5 digest form draw s).1 ≡ s)
          ⊎ ((token_endpoint config jwt uuid5 digest form draw s).1
              ≡ (code_grant config jwt uuid5 digest form draw s).1)
    unfolding token_endpoint
    token_store form draw s = ground arith

    token_endpoint-All :
        (P : Text × CodeRecord → Type 0) (form : TokenForm) (draw : TokenDraw) (s : CodeStore)
        → All P s
        → All P (token_endpoint config jwt uuid5 digest form draw s).1
    token_endpoint-All P form draw s h = elim (token_store form draw s) [
      | inl same ↦ rw same h
      | inr popped ↦ rw popped (code_grant-All P form draw s h)
    ]

    pub after-Known : (rs : List ClientRequest) → All (Known rs) (after rs)
    unfolding run_requests serve_request
    after-Known [] = tt
    after-Known (exchanges form draw ∷ rs) =
        let before : All (Known (exchanges form draw ∷ rs)) (after rs) =
          All-imp (Known rs) _ (Known-later rs (exchanges form draw)) (after rs) (after-Known rs) in
        token_endpoint-All (Known (exchanges form draw ∷ rs)) form draw (after rs) before
    after-Known (authorizes form draw ∷ rs) =
        let before : All (Known (authorizes form draw ∷ rs)) (after rs) =
          All-imp (Known rs) _ (Known-later rs (authorizes form draw)) (after rs)
            (after-Known rs) in
        authorize_post_ind (λ o. All (Known (authorizes form draw ∷ rs)) o.1) config scrypt form
          draw (after rs) before before
          λ u asked known.
            All-put_code _ draw.code (code_record form draw u) _
              (λ c same. record {
                origin = inl (
                  u,
                  record {
                    asked = asked;
                    knew_password = known;
                    drew = sym (text_eq_sound c draw.code same);
                    recorded = refl;
                  },
                );
              })
              (All-cleanup_codes _ draw.cleaned_at (after rs) before)
