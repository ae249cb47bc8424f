-- ===== src/Oidc/Bearer.antt =====
-- oidc-provider/app/main.py with agent-service/app/core/security.py: what the two kinds of token are worth
-- at the agent service and at the token endpoint.
use processguard_ai.Oidc.Serve.{token_endpoint}
use processguard_ai.Oidc.Codes.{find_code}
use processguard_ai.Oidc.SignIn.{
  claims_of, decode_claims, Fits, grant_of, token-Fits, authorize_post_owner, find-put_code,
}
use processguard_ai.Security.{Principal, principal_site, principal_role, username, has_role}
use processguard_ai.Security.Tokens.{validate_token}
use processguard_ai.Security.Headers.{bare_token-bearer}
use processguard_ai.Oidc.Stored.{IsByte}
use processguard_ai.Oidc.{
  User, users, find_user-All, Config, CodeStore, Jwt, Signs, Payload, access_claims, is_current,
  second, TokenForm, TokenDraw, AuthorizeForm, AuthorizeDraw, Grant, granted, redirect,
  redirect_target, cleanup_codes, put_code, authorize_post, token_endpoint, code_record,
  is_bad_request, find_user, find_user_again, issue_access_token, access_payload, or_client,
}
use processguard_ai.Base.{
  text_eq_sound, text_eq_refl, ℕ, ◌+◌, ◌*◌, ◌≤◌, ◌≡◌, refl, ◌∙◌, ◌≢◌, true, false, ◌||◌, none, some,
  List, [], ◌∷◌, ◌++◌, arith, if◌then◌else◌, is_empty, All, Text, codes,
}

or_text_self : (s : Text) → or_client s s ≡ s
or_text_self [] = refl
or_text_self (c ∷ s) = refl

is_empty_ne : (s : Text) → s ≢ [] → is_empty s ≡ false
is_empty_ne [] ne = absurd (ne refl)
is_empty_ne (c ∷ s) ne = refl

-- What the checks of both services need of a user: none of the seeded users lacks it.
record IsNamed (u : User) : Type 0 where
  has_email : is_empty u.email ≡ false
  has_role : is_empty u.role ≡ false
  has_site : is_empty u.site_id ≡ false

find_user-IsNamed : (email : Text) (u : User) → find_user email ≡ some u → IsNamed u
unfolding users
find_user-IsNamed email u = find_user-All IsNamed email u (
  record { has_email = refl; has_role = refl; has_site = refl },
  (
    record { has_email = refl; has_role = refl; has_site = refl },
    (
      record { has_email = refl; has_role = refl; has_site = refl },
      (record { has_email = refl; has_role = refl; has_site = refl }, tt),
    ),
  ),
)

username_named :
    (p : Principal) (name : Text)
    → p.payload.preferred_username ≡ name
    → is_empty name ≡ false
    → username p ≡ name
unfolding username
username_named p name same full = ground arith

module _ (config : Config) (jwt : Jwt) (uuid5 : Text → Text) (signs : Signs jwt) where
  -- The token is current from its issue until its minutes are over.
  access_is_current :
      (u : User) (nonce : Text) (issued now : ℕ)
      → issued ≤ now
      → now + second ≤ issued + config.access_token_minutes * 60 * second
      → is_current config.client_id now
          (access_claims (access_payload config uuid5 u config.client_id nonce issued))
        ≡ true
  unfolding is_current access_payload
  access_is_current u nonce issued now started lasts =
      rw (or_text_self config.client_id) (rw (text_eq_refl config.client_id) (ground arith))

  abbrev pub principal_of : Payload → Principal
  principal_of p = record { token = jwt.encode p; payload = claims_of p }

  validate_signed :
      (issuers : List Text) (now : ℕ) (p : Payload)
      → is_current config.client_id now p ≡ true
      → has_role (claims_of p).iss issuers ≡ true
      → validate_token
          (decode_claims jwt config.client_id now)
          issuers
          (codes "Bearer " ++ jwt.encode p)
        ≡ (if is_empty (principal_site (principal_of p))
              || is_empty (principal_role (principal_of p))
            then none
            else some (principal_of p))
  unfolding validate_token
  validate_signed issuers now p current trusted =
      let bare = bare_token-bearer (jwt.encode p) (signs.encode_ne p) (signs.encode-NotSpace p) in
      let decoded = signs.decode-encode p config.client_id now in
      let full : is_empty (jwt.encode p) ≡ false = is_empty_ne (jwt.encode p) (signs.encode_ne p) in
      rw (bare, validate_token) (rw (full, decoded, current, trusted, bare) refl)

  access_opens :
      (issuers : List Text) (email : Text) (u : User) (nonce : Text) (issued now : ℕ)
      → find_user email ≡ some u
      → has_role config.issuer issuers ≡ true
      → issued ≤ now
      → now + second ≤ issued + config.access_token_minutes * 60 * second
      → (p : Principal) × (validate_token
            (decode_claims jwt config.client_id now)
            issuers
            (codes "Bearer " ++ issue_access_token config uuid5 jwt u config.client_id nonce issued)
          ≡ some p)
        × (principal_site p ≡ u.site_id)
        × (principal_role p ≡ u.role)
        × (username p ≡ u.email)
  unfolding issue_access_token access_payload
  access_opens issuers email u nonce issued now found trusted started lasts =
      let claims = access_payload config uuid5 u config.client_id nonce issued in
      let signed =
        validate_signed issuers now (access_claims claims)
          (access_is_current u nonce issued now started lasts) trusted in
      let named = find_user-IsNamed email u found in
      let p = principal_of (access_claims claims) in
      (
        p,
        signed ∙ rw (named.has_site, named.has_role) refl,
        refl,
        refl,
        username_named p u.email refl named.has_email,
      )

asks_as_client :
    (config : Config) (asked : AuthorizeForm)
    → is_bad_request config asked.response_type asked.client_id asked.redirect_uri ≡ false
    → asked.client_id ≡ config.client_id
unfolding is_bad_request
asks_as_client config asked h = text_eq_sound asked.client_id config.client_id (ground arith)

-- The whole sign-in: with the right password of a seeded user, a request to an allowed redirect by this
-- client is sent back with a code, and a token request that fits it (the same client and redirect, the
-- verifier that opens the challenge if there was one) gets an access token. From its issue until its
-- minutes are over, the agent service takes that token in a `Bearer` header for the user's email, role
-- and site. The salt is of bytes, and the agent service trusts the issuer and expects this client.
pub sign_in :
    (config : Config) (jwt : Jwt) (uuid5 digest : Text → Text) (scrypt : Text → List ℕ → List ℕ)
    (issuers : List Text) (asked : AuthorizeForm) (drew : AuthorizeDraw) (s : CodeStore) (u : User)
    (form : TokenForm) (draw : TokenDraw) (now : ℕ)
    → Signs jwt
    → All IsByte drew.salt
    → is_bad_request config asked.response_type asked.client_id asked.redirect_uri ≡ false
    → find_user asked.email ≡ some u
    → asked.password ≡ u.password
    → Fits digest asked drew.code form
    → has_role config.issuer issuers ≡ true
    → draw.issued_at ≤ now
    → now + second ≤ draw.issued_at + config.access_token_minutes * 60 * second
    → let (answer, left) = authorize_post config scrypt asked drew s in
      (answer ≡ redirect (redirect_target asked.redirect_uri drew.code asked.state))
      × (g : Grant) × ((token_endpoint config jwt uuid5 digest form draw left).0 ≡ granted g)
      × (p : Principal) × (validate_token
            (decode_claims jwt config.client_id now)
            issuers
            (codes "Bearer " ++ g.access_token)
          ≡ some p)
      × (principal_site p ≡ u.site_id)
      × (principal_role p ≡ u.role)
      × (username p ≡ u.email)
sign_in config jwt uuid5 digest scrypt issuers asked drew s u form draw now signs bytes asks found
      knows fits trusted started lasts =
    let left =
      put_code drew.code (code_record asked drew u) (cleanup_codes config drew.cleaned_at s) in
    let in_ =
      authorize_post_owner config jwt uuid5 digest scrypt asked drew s u bytes asks found knows in
    let ours : asked.client_id ≡ config.client_id = asks_as_client config asked asks in
    let there : find_code form.code left ≡ some (code_record asked drew u) =
      rw fits.same_code (find-put_code drew.code (code_record asked drew u) _) in
    let got =
      token-Fits config jwt uuid5 digest scrypt asked drew u form draw left fits ours
        (find_user_again asked.email u found) there in
    let (p, taken, site, role, name) =
      access_opens config jwt uuid5 signs issuers asked.email u asked.nonce draw.issued_at now found
        trusted started lasts in
    rw in_ (
      refl,
      grant_of config jwt uuid5 digest scrypt asked form draw u,
      got,
      p,
      rw (fits.same_client ∙ ours) taken,
      site,
      role,
      name,
    )
