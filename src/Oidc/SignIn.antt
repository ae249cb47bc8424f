-- ===== src/Oidc/SignIn.antt =====
-- oidc-provider/app/main.py with agent-service/app/core/security.py: from the password to the caller that
-- the agent service sees. The agent service decodes with the provider's public key.
use processguard_ai.Oidc.Serve.{token_endpoint}
use processguard_ai.Security.{Claims, role_list, no_role}
use processguard_ai.Oidc.Stored.{IsByte, verify_password-hash_password}
use processguard_ai.Oidc.{
  User, Config, CodeRecord, CodeStore, Jwt, Payload, access_claims, refresh_claims, TokenForm,
  TokenDraw, AuthorizeForm, AuthorizeDraw, Grant, granted, redirect, redirect_target, find_code,
  put_code, cleanup_codes, authorize_post, code_grant, exchange, token_endpoint, code_record,
  authenticated, is_bad_request, find_user, issue_access_token, issue_refresh_token,
  verify_password, hash_password, check_pkce, compare_digest, or_client, hex,
}
use processguard_ai.Base.{
  text_eq, text_eq_refl, ℕ, ◌*◌, ◌≡◌, refl, ◌∙◌, ◌⊎◌, true, false, Option, none, some, List, [],
  ◌∷◌, arith, is_empty, All, Text, codes,
}

-- The claims that `Principal` reads of a decoded payload.
abbrev pub claims_of : Payload → Claims
claims_of (access_claims c) = record {
  iss = c.iss;
  site_claim = c.site_id;
  roles = role_list c.roles;
  preferred_username = c.preferred_username;
  name = c.name;
  sub = c.sub;
}
claims_of (refresh_claims c) = record {
  iss = c.iss;
  site_claim = [];
  roles = no_role;
  preferred_username = [];
  name = [];
  sub = c.sub;
}

-- `jwt.decode` in the agent service, for its configured audience at a time.
abbrev pub decode_claims : Jwt → Text → ℕ → Text → Option Claims
decode_claims jwt audience now token = elim (jwt.decode token audience now) [
  | none ↦ none
  | some p ↦ some (claims_of p)
]

pub find-put_code :
    (code : Text) (r : CodeRecord) (s : CodeStore) → find_code code (put_code code r s) ≡ some r
unfolding find_code put_code
find-put_code code r [] = ground (arith, text_eq_refl code)
find-put_code code r ((c, r') ∷ s) = ground (arith, find-put_code code r s)

authenticated_owner :
    (scrypt : Text → List ℕ → List ℕ) (salt : List ℕ) (email : Text) (u : User)
    → All IsByte salt
    → find_user email ≡ some u
    → authenticated scrypt salt email u.password ≡ some u
unfolding authenticated
authenticated_owner scrypt salt email u bytes found =
    let verified : verify_password scrypt u.password (hash_password scrypt salt u.password) ≡ true =
      verify_password-hash_password scrypt salt u.password u.password bytes
      ∙ text_eq_refl (hex (scrypt u.password salt)) in
    ground arith

-- The verifier opens the challenge: S256 by name or by default.
pub record Opens (digest : Text → Text) (challenge method verifier : Text) : Type 0 where
  pub given : is_empty verifier ≡ false
  pub by_s256 : text_eq (or_client method (codes "S256")) (codes "S256") ≡ true
  pub digests : compare_digest (digest verifier) challenge ≡ some true

-- What the client sends second fits what it sent first.
pub record Fits (digest : Text → Text) (asked : AuthorizeForm) (code : Text) (form : TokenForm)
    : Type 0 where
  pub by_code : form.grant_type ≡ codes "authorization_code"
  pub same_client : form.client_id ≡ asked.client_id
  pub same_redirect : form.redirect_uri ≡ asked.redirect_uri
  pub no_secret : form.client_secret ≡ []
  pub same_code : form.code ≡ code
  pub opens :
      (asked.code_challenge ≡ [])
      ⊎ Opens digest asked.code_challenge asked.code_challenge_method form.code_verifier

check_pkce-Opens :
    (digest : Text → Text) (r : CodeRecord) (verifier : Text)
    → (r.code_challenge ≡ []) ⊎ Opens digest r.code_challenge r.method verifier
    → check_pkce digest r verifier ≡ some true
unfolding check_pkce compare_digest
check_pkce-Opens digest r verifier fits = ground arith

module _ (config : Config) (jwt : Jwt) (uuid5 digest : Text → Text)
    (scrypt : Text → List ℕ → List ℕ) where
  pub authorize_post_owner :
      (asked : AuthorizeForm) (drew : AuthorizeDraw) (s : CodeStore) (u : User)
      → All IsByte drew.salt
      → is_bad_request config asked.response_type asked.client_id asked.redirect_uri ≡ false
      → find_user asked.email ≡ some u
      → asked.password ≡ u.password
      → authorize_post config scrypt asked drew s ≡ (
        redirect (redirect_target asked.redirect_uri drew.code asked.state),
        put_code drew.code (code_record asked drew u) (cleanup_codes config drew.cleaned_at s),
      )
  unfolding authorize_post
  authorize_post_owner asked drew s u bytes asks found knows =
      let in_ : authenticated scrypt drew.salt asked.email asked.password ≡ some u =
        rw knows (authenticated_owner scrypt drew.salt asked.email u bytes found) in
      rw asks (rw (in_, authorize_post) refl)

  -- The tokens for a code that the store holds under the record of the sign-in.
  abbrev pub grant_of : AuthorizeForm → TokenForm → TokenDraw → User → Grant
  grant_of asked form draw u = record {
    access_token = issue_access_token config uuid5 jwt u form.client_id asked.nonce draw.issued_at;
    expires_in = config.access_token_minutes * 60;
    refresh_token =
        issue_refresh_token config jwt u.email form.client_id draw.jti draw.refresh_issued_at
          draw.refresh_expiry_at;
    scope = asked.scope;
  }

  exchange-Fits :
      (asked : AuthorizeForm) (drew : AuthorizeDraw) (u : User) (form : TokenForm)
      (draw : TokenDraw)
      → Fits digest asked drew.code form
      → find_user u.email ≡ some u
      → exchange config jwt uuid5 digest (code_record asked drew u) form draw
        ≡ granted (grant_of asked form draw u)
  unfolding exchange
  exchange-Fits asked drew u form draw fits found = ground (
    arith,
    check_pkce-Opens digest (code_record asked drew u) form.code_verifier fits.opens,
    text_eq_refl asked.client_id,
    text_eq_refl asked.redirect_uri,
  )

  pub token-Fits :
      (asked : AuthorizeForm) (drew : AuthorizeDraw) (u : User) (form : TokenForm)
      (draw : TokenDraw) (s : CodeStore)
      → Fits digest asked drew.code form
      → asked.client_id ≡ config.client_id
      → find_user u.email ≡ some u
      → find_code form.code s ≡ some (code_record asked drew u)
      → (token_endpoint config jwt uuid5 digest form draw s).0
        ≡ granted (grant_of asked form draw u)
  unfolding token_endpoint code_grant
  token-Fits asked drew u form draw s fits ours found there = ground (
    arith,
    exchange-Fits asked drew u form draw fits found,
    text_eq_refl config.client_id,
    text_eq_refl (codes "authorization_code"),
  )
