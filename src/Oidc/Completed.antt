-- ===== src/Oidc/Completed.antt =====
-- oidc-provider/app/main.py: tokens for a code trace back to the sign-in that drew it.
use processguard_ai.Oidc.History.{
  SignedIn, Put, Somewhere, Somewhere-imp, Known, after, after-Known, find_code-All,
}
use processguard_ai.Oidc.{
  compare_digest, find_user_again, exchange, User, Config, CodeRecord, CodeStore, Jwt, TokenForm,
  TokenDraw, AuthorizeForm, AuthorizeDraw, Grant, granted, find_code, code_grant, token_endpoint,
  authenticated, is_bad_request, find_user, issue_access_token, check_pkce,
}
use processguard_ai.Oidc.Users.{find_user_again}
use processguard_ai.Oidc.Serve.{token_endpoint, compare_digest}
use processguard_ai.Oidc.Redeem.{ClientRequest, authorizes, exchanges, run_requests}
use mathlib.Core.Path.{subst}
use processguard_ai.Base.{
  text_eq_sound, text_eq, ℕ, ◌≡◌, ◌⊎◌, inl, inr, true, false, some, List, [], arith, Option-cases,
  Text, codes,
}

module _ (config : Config) (scrypt : Text → List ℕ → List ℕ) (jwt : Jwt)
    (uuid5 digest : Text → Text) where
  token_granted :
      (form : TokenForm) (draw : TokenDraw) (s : CodeStore) (g : Grant)
      → text_eq form.grant_type (codes "authorization_code") ≡ true
      → (token_endpoint config jwt uuid5 digest form draw s).0 ≡ granted g
      → (r : CodeRecord) × (find_code form.code s ≡ some r)
        × (exchange config jwt uuid5 digest r form draw ≡ granted g)
  unfolding token_endpoint code_grant
  token_granted form draw s g kind h = elim (Option-cases (find_code form.code s)) [
    | inl absent ↦ absurd (ground arith)
    | inr (r, there) ↦ (r, there, ground arith)
  ]

  -- A sign-in that a token request completes with these tokens.
  pub record Completes (form : TokenForm) (draw : TokenDraw) (g : Grant) (asked : AuthorizeForm)
      (drew : AuthorizeDraw) (u : User) : Type 0 where
    pub valid_request :
        is_bad_request config asked.response_type asked.client_id asked.redirect_uri ≡ false
    pub knew_password : authenticated scrypt drew.salt asked.email asked.password ≡ some u
    pub same_code : drew.code ≡ form.code
    pub same_client : text_eq asked.client_id form.client_id ≡ true
    pub same_redirect : text_eq asked.redirect_uri form.redirect_uri ≡ true
    pub proved_key :
        (asked.code_challenge ≡ [])
        ⊎ (text_eq (digest form.code_verifier) asked.code_challenge ≡ true)
    pub names_user :
        g.access_token
        ≡ issue_access_token config uuid5 jwt u form.client_id asked.nonce draw.issued_at

  abbrev pub CompletedBy : TokenForm → TokenDraw → Grant → ClientRequest → Type 0
  CompletedBy form draw g (exchanges f d) = ⊥
  CompletedBy form draw g (authorizes asked drew) = (u : User) × Completes form draw g asked drew u

  check_pkce_passed :
      (r : CodeRecord) (verifier : Text)
      → check_pkce digest r verifier ≡ some true
      → (r.code_challenge ≡ []) ⊎ (text_eq (digest verifier) r.code_challenge ≡ true)
  unfolding check_pkce compare_digest
  check_pkce_passed r verifier h = ground arith

  authenticated_found :
      (salt : List ℕ) (email password : Text) (u : User)
      → authenticated scrypt salt email password ≡ some u
      → find_user email ≡ some u
  unfolding authenticated
  authenticated_found salt email password u h = ground arith

  exchange-Completes :
      (form : TokenForm) (draw : TokenDraw) (g : Grant) (r : CodeRecord) (asked : AuthorizeForm)
      (drew : AuthorizeDraw) (u : User)
      → SignedIn config scrypt form.code r asked drew u
      → exchange config jwt uuid5 digest r form draw ≡ granted g
      → Completes form draw g asked drew u
  unfolding exchange
  exchange-Completes form draw g r asked drew u signed h =
      let again =
        find_user_again asked.email u
          (authenticated_found drew.salt asked.email asked.password u signed.knew_password) in
      let passed = check_pkce_passed r form.code_verifier in
      record {
        valid_request = signed.asked;
        knew_password = signed.knew_password;
        same_code = signed.drew;
        same_client = ground arith;
        same_redirect = ground arith;
        proved_key = ground (arith, passed);
        names_user = ground (arith, again);
      }

  Put-CompletedBy :
      (form : TokenForm) (draw : TokenDraw) (g : Grant) (c : Text) (r : CodeRecord)
      (q : ClientRequest)
      → c ≡ form.code
      → exchange config jwt uuid5 digest r form draw ≡ granted g
      → Put config scrypt c r q
      → CompletedBy form draw g q
  Put-CompletedBy form draw g c r (exchanges f d) same gave h = elim h [ ]
  Put-CompletedBy form draw g c r (authorizes asked drew) same gave (u, signed) = (
    u,
    exchange-Completes form draw g r asked drew u
        (subst (λ x. SignedIn config scrypt x r asked drew u) same signed) gave,
  )

  -- Whoever gets tokens for a code, after any history from an empty store, completes a sign-in of that
  -- history: a request to an allowed redirect by this client, with the password of the user that the
  -- access token names, for the same code, client and redirect, and by the holder of the PKCE verifier
  -- if that request had a challenge.
  pub token_endpoint-CompletedBy :
      (rs : List ClientRequest) (form : TokenForm) (draw : TokenDraw) (g : Grant)
      → text_eq form.grant_type (codes "authorization_code") ≡ true
      → (token_endpoint config jwt uuid5 digest form draw
          (run_requests config jwt uuid5 digest scrypt rs [])).0
        ≡ granted g
      → Somewhere (CompletedBy form draw g) rs
  token_endpoint-CompletedBy rs form draw g kind h =
      let (r, there, gave) =
        token_granted form draw (after config scrypt jwt uuid5 digest rs) g kind h in
      let (c, same, k) =
        find_code-All config scrypt (Known config scrypt rs) form.code
          (after config scrypt jwt uuid5 digest rs) r
          (after-Known config scrypt jwt uuid5 digest rs) there in
      Somewhere-imp (Put config scrypt c r) (CompletedBy form draw g)
        (λ q. Put-CompletedBy form draw g c r q (text_eq_sound c form.code same) gave) rs k.origin
