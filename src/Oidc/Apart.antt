-- ===== src/Oidc/Apart.antt =====
-- oidc-provider/app/main.py with agent-service/app/core/security.py: a token of one kind does not pass
-- for the other, and what the age of a code has to do with its redemption.
use processguard_ai.Oidc.Serve.{token_endpoint}
use processguard_ai.Oidc.SignIn.{decode_claims}
use processguard_ai.Security.Tokens.{validate_token}
use processguard_ai.Security.Headers.{bare_token-bearer}
use processguard_ai.Oidc.{
  AccessClaims, RefreshClaims, User, Config, CodeRecord, CodeStore, Jwt, Signs, access_claims,
  refresh_claims, second, TokenForm, TokenDraw, Grant, granted, find_code, code_grant, exchange,
  token_endpoint, find_user, issue_access_token, issue_refresh_token, refresh_grant, check_pkce,
  cleanup_codes,
}
use processguard_ai.Base.{
  text_eq_refl, ℕ, ◌-◌, ◌*◌, ◌<◌, ◌≡◌, ◌≢◌, true, none, some, List, [], ◌∷◌, ◌++◌, arith, Text,
  codes,
}

module _ (config : Config) (jwt : Jwt) (uuid5 digest : Text → Text) (signs : Signs jwt) where
  validate_refresh :
      (issuers : List Text) (audience : Text) (now : ℕ) (c : RefreshClaims)
      → validate_token
          (decode_claims jwt audience now)
          issuers
          (codes "Bearer " ++ jwt.encode (refresh_claims c))
        ≡ none
  unfolding validate_token
  validate_refresh issuers audience now c =
      let p = refresh_claims c in
      let bare = bare_token-bearer (jwt.encode p) (signs.encode_ne p) (signs.encode-NotSpace p) in
      let decoded = signs.decode-encode p audience now in rw (bare, validate_token) (ground arith)

  refresh_grant_access :
      (form : TokenForm) (draw : TokenDraw) (c : AccessClaims) (g : Grant)
      → form.refresh_token ≡ jwt.encode (access_claims c)
      → refresh_grant config jwt uuid5 digest form draw ≢ granted g
  unfolding refresh_grant
  refresh_grant_access form draw c g is_access =
      let decoded = signs.decode-encode (access_claims c) form.client_id draw.checked_at in
      ground arith

  -- A refresh token opens nothing at the agent service, and an access token buys nothing at the token
  -- endpoint, whenever and for whichever audience they are checked.
  pub tokens_apart :
      (issuers : List Text) (audience : Text) (now : ℕ) (email client jti : Text)
      (issued expiry : ℕ) (u : User) (nonce : Text) (time : ℕ) (form : TokenForm) (draw : TokenDraw)
      (g : Grant)
      → form.refresh_token ≡ issue_access_token config uuid5 jwt u client nonce time
      → (validate_token
            (decode_claims jwt audience now)
            issuers
            (codes "Bearer " ++ issue_refresh_token config jwt email client jti issued expiry)
          ≡ none)
        × (refresh_grant config jwt uuid5 digest form draw ≢ granted g)
  unfolding issue_refresh_token issue_access_token
  tokens_apart issuers audience now email client jti issued expiry u nonce time form draw g
        is_access =
      (validate_refresh issuers audience now _, refresh_grant_access form draw _ g is_access)

-- The age of a code is not looked at when it is redeemed: a code that is older than `CODE_TTL_SECONDS`
-- and still in the store (no sign-in has cleaned it up since) gets tokens when client, redirect and PKCE
-- verifier fit, while the next clean-up would drop it.
pub stale_code_redeems :
    (config : Config) (jwt : Jwt) (uuid5 digest : Text → Text) (form : TokenForm) (draw : TokenDraw)
    (s : CodeStore) (r : CodeRecord) (u : User)
    → config.code_ttl_seconds * second < draw.issued_at - r.created
    → form.client_id ≡ config.client_id
    → form.client_secret ≡ []
    → form.grant_type ≡ codes "authorization_code"
    → find_code form.code s ≡ some r
    → r.client_id ≡ form.client_id
    → r.redirect_uri ≡ form.redirect_uri
    → check_pkce digest r form.code_verifier ≡ some true
    → find_user r.email ≡ some u
    → ((g : Grant) × ((token_endpoint config jwt uuid5 digest form draw s).0 ≡ granted g))
      × (cleanup_codes config draw.issued_at ((form.code, r) ∷ []) ≡ [])
unfolding token_endpoint code_grant exchange cleanup_codes
stale_code_redeems config jwt uuid5 digest form draw s r u old client no_secret kind there
      same_client same_redirect opened found =
    let refl_client = text_eq_refl config.client_id in
    let refl_redirect = text_eq_refl r.redirect_uri in
    (
      (
        record {
          access_token =
              issue_access_token config uuid5 jwt u form.client_id r.nonce draw.issued_at;
          expires_in = config.access_token_minutes * 60;
          refresh_token =
              issue_refresh_token config jwt u.email form.client_id draw.jti draw.refresh_issued_at
                draw.refresh_expiry_at;
          scope = r.scope;
        },
        ground arith,
      ),
      ground arith,
    )
