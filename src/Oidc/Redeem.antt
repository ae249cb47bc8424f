-- ===== src/Oidc/Redeem.antt =====
-- oidc-provider/app/main.py: the store of codes under the calls that change it, and what a redeemed
-- code is worth afterwards.
use processguard_ai.Oidc.Codes.{redirect_target}
use processguard_ai.Oidc.Users.{User}
use processguard_ai.Oidc.Serve.{redirect, authenticated, is_bad_request, code_record, page}
use processguard_ai.Oidc.{
  Config, CodeRecord, CodeStore, Jwt, TokenForm, TokenDraw, AuthorizeForm, AuthorizeDraw, Grant,
  ProviderResponse, granted, find_code, remove_code, put_code, cleanup_codes, authorize_post,
  code_grant, token_endpoint,
}
use processguard_ai.Base.{
  text_eq, ℕ, ◌≡◌, refl, ◌≢◌, inl, inr, true, false, none, some, List, [], ◌∷◌, arith, Bool-cases,
  Option-cases, All, Text, codes,
}

find-remove_code : (code : Text) (s : CodeStore) → find_code code (remove_code code s) ≡ none
unfolding find_code remove_code
find-remove_code code [] = refl
find-remove_code code ((c, r) ∷ s) = ground (arith, find-remove_code code s)

find-remove_code-none :
    (code other : Text) (s : CodeStore)
    → find_code code s ≡ none
    → find_code code (remove_code other s) ≡ none
unfolding find_code remove_code
find-remove_code-none code other [] h = refl
find-remove_code-none code other ((c, r) ∷ s) h = ground (arith, find-remove_code-none code other s)

find-put_code-none :
    (code other : Text) (r : CodeRecord) (s : CodeStore)
    → text_eq other code ≡ false
    → find_code code s ≡ none
    → find_code code (put_code other r s) ≡ none
unfolding find_code put_code
find-put_code-none code other r [] ne h = ground arith
find-put_code-none code other r ((c, r') ∷ s) ne h =
    ground (arith, find-put_code-none code other r s)

find-cleanup_codes-none :
    (code : Text) (config : Config) (now : ℕ) (s : CodeStore)
    → find_code code s ≡ none
    → find_code code (cleanup_codes config now s) ≡ none
unfolding find_code cleanup_codes
find-cleanup_codes-none code config now [] h = refl
find-cleanup_codes-none code config now ((c, r) ∷ s) h =
    ground (arith, find-cleanup_codes-none code config now s)

-- What a client may send to the two endpoints that touch the store.
pub data ClientRequest : Type 0 where
  authorizes : AuthorizeForm → AuthorizeDraw → ClientRequest
  exchanges : TokenForm → TokenDraw → ClientRequest

-- `secrets.token_urlsafe` does not draw the same code again.
abbrev pub Avoids : Text → ClientRequest → Type 0
Avoids code (authorizes form draw) = text_eq draw.code code ≡ false
Avoids code (exchanges form draw) = Unit {0}

-- What holds of the two refusals and of the accepted sign-in holds of the outcome.
pub authorize_post_ind {κ} :
    (P : ProviderResponse × CodeStore → Type κ) (config : Config) (scrypt : Text → List ℕ → List ℕ)
    (form : AuthorizeForm) (draw : AuthorizeDraw) (s : CodeStore)
    → P (page 400, s)
    → P (page 401, s)
    → ((u : User)
        → is_bad_request config form.response_type form.client_id form.redirect_uri ≡ false
        → authenticated scrypt draw.salt form.email form.password ≡ some u
        → P (
          redirect (redirect_target form.redirect_uri draw.code form.state),
          put_code draw.code (code_record form draw u) (cleanup_codes config draw.cleaned_at s),
        ))
    → P (authorize_post config scrypt form draw s)
unfolding authorize_post
authorize_post_ind P config scrypt form draw s bad wrong good =
    elim (Bool-cases (is_bad_request config form.response_type form.client_id form.redirect_uri)) [
      | inl refused ↦ rw refused bad
      | inr asked ↦ elim (Option-cases (authenticated scrypt draw.salt form.email form.password)) [
        | inl nobody ↦ rw asked (rw (nobody, authorize_post) wrong)
        | inr (u, known) ↦ rw asked (rw (known, authorize_post) (good u asked known))
      ]
    ]

module _ (config : Config) (jwt : Jwt) (uuid5 digest : Text → Text)
    (scrypt : Text → List ℕ → List ℕ) where
  unfoldable pub serve_request : ClientRequest → CodeStore → CodeStore
  serve_request (authorizes form draw) s = (authorize_post config scrypt form draw s).1
  serve_request (exchanges form draw) s = (token_endpoint config jwt uuid5 digest form draw s).1

  -- The requests are listed with the latest first.
  unfoldable pub run_requests : List ClientRequest → CodeStore → CodeStore
  run_requests [] s = s
  run_requests (r ∷ rs) s = serve_request r (run_requests rs s)

  code_grant-none :
      (code : Text) (form : TokenForm) (draw : TokenDraw) (s : CodeStore)
      → find_code code s ≡ none
      → find_code code (code_grant config jwt uuid5 digest form draw s).1 ≡ none
  unfolding code_grant
  code_grant-none code form draw s h = ground (arith, find-remove_code-none code form.code s)

  token_endpoint-none :
      (code : Text) (form : TokenForm) (draw : TokenDraw) (s : CodeStore)
      → find_code code s ≡ none
      → find_code code (token_endpoint config jwt uuid5 digest form draw s).1 ≡ none
  unfolding token_endpoint
  token_endpoint-none code form draw s h = ground (arith, code_grant-none code form draw s)

  authorize_post-none :
      (code : Text) (form : AuthorizeForm) (draw : AuthorizeDraw) (s : CodeStore)
      → text_eq draw.code code ≡ false
      → find_code code s ≡ none
      → find_code code (authorize_post config scrypt form draw s).1 ≡ none
  authorize_post-none code form draw s ne h =
      authorize_post_ind (λ o. find_code code o.1 ≡ none) config scrypt form draw s h h
        λ u _ _.
          find-put_code-none code draw.code (code_record form draw u) _ ne
            (find-cleanup_codes-none code config draw.cleaned_at s h)

  run_requests-none :
      (code : Text) (rs : List ClientRequest) (s : CodeStore)
      → All (Avoids code) rs
      → find_code code s ≡ none
      → find_code code (run_requests rs s) ≡ none
  unfolding run_requests serve_request
  run_requests-none code [] s fresh h = h
  run_requests-none code (authorizes form draw ∷ rs) s fresh h =
      authorize_post-none code form draw (run_requests rs s) fresh.0
        (run_requests-none code rs s fresh.1 h)
  run_requests-none code (exchanges form draw ∷ rs) s fresh h =
      token_endpoint-none code form draw (run_requests rs s) (run_requests-none code rs s fresh.1 h)

  -- A request with an authorization code that is answered with tokens leaves no such code.
  token_spends :
      (form : TokenForm) (draw : TokenDraw) (s : CodeStore) (g : Grant)
      → text_eq form.grant_type (codes "authorization_code") ≡ true
      → (token_endpoint config jwt uuid5 digest form draw s).0 ≡ granted g
      → find_code form.code (token_endpoint config jwt uuid5 digest form draw s).1 ≡ none
  unfolding token_endpoint code_grant
  token_spends form draw s g kind h = ground (arith, find-remove_code form.code s)

  absent_refuses :
      (form : TokenForm) (draw : TokenDraw) (s : CodeStore) (g : Grant)
      → text_eq form.grant_type (codes "authorization_code") ≡ true
      → find_code form.code s ≡ none
      → (token_endpoint config jwt uuid5 digest form draw s).0 ≢ granted g
  unfolding token_endpoint code_grant
  absent_refuses form draw s g kind h = ground arith

  -- An authorization code buys tokens once: after a request that got tokens for it, and any further
  -- requests of the two endpoints that do not draw the same code again, each request with that code is
  -- answered without tokens.
  pub redeemed_once :
      (form : TokenForm) (draw : TokenDraw) (s : CodeStore) (g : Grant)
      → text_eq form.grant_type (codes "authorization_code") ≡ true
      → (token_endpoint config jwt uuid5 digest form draw s).0 ≡ granted g
      → (rs : List ClientRequest) → All (Avoids form.code) rs
      → (again : TokenForm) (later : TokenDraw) (g' : Grant)
      → text_eq again.grant_type (codes "authorization_code") ≡ true
      → again.code ≡ form.code
      → (token_endpoint config jwt uuid5 digest again later
          (run_requests rs (token_endpoint config jwt uuid5 digest form draw s).1)).0
        ≢ granted g'
  redeemed_once form draw s g kind h rs fresh again later g' kind' same =
      absent_refuses again later _ g' kind'
        (rw same (run_requests-none form.code rs _ fresh (token_spends form draw s g kind h)))
