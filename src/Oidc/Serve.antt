-- ===== src/Oidc/Serve.antt =====
-- oidc-provider/app/main.py: the endpoints. An endpoint returns its response and the store that it
-- leaves. The texts of the pages are not modelled. What a request draws from outside (the clock at each
-- reading, the random values) is an argument.
use processguard_ai.Oidc.Users.{User, users, find_user, site_name}
use processguard_ai.Oidc.Passwords.{hash_password, verify_password}
use processguard_ai.Oidc.Codes.{
  Config, CodeRecord, CodeStore, find_code, remove_code, put_code, cleanup_codes, allowed_redirect,
  redirect_target,
}
use processguard_ai.Oidc.Issue.{
  Jwt, Payload, access_claims, refresh_claims, or_client, issue_access_token, issue_refresh_token,
}
use processguard_ai.Base.{
  http_error, text_eq, ℕ, ◌*◌, Bool, true, false, not, ◌||◌, Option, none, some, List, [], ◌∷◌,
  ◌++◌, leb, if◌then◌else◌, any, is_empty, Text, codes, Result, ok, err,
}

pub record Grant : Type 0 where
  pub access_token : Text
  pub expires_in : ℕ
  pub refresh_token : Text
  pub scope : Text

-- `server_error` is the framework's answer to an exception that no handler catches.
pub data ProviderResponse : Type 0 where
  page : ℕ → ProviderResponse
  redirect : Text → ProviderResponse
  oauth_error : ℕ → Text → Text → ProviderResponse
  granted : Grant → ProviderResponse
  server_error : ProviderResponse

-- `hmac.compare_digest`; `none` is its TypeError on a text that is not ASCII.
unfoldable pub compare_digest : Text → Text → Option Bool
compare_digest s t = if any (λ c. leb 128 c) (s ++ t) then none else some (text_eq s t)

pub record AuthorizeForm : Type 0 where
  pub response_type : Text
  pub client_id : Text
  pub redirect_uri : Text
  pub scope : Text
  pub state : Text
  pub nonce : Text
  pub code_challenge : Text
  pub code_challenge_method : Text
  pub email : Text
  pub password : Text

pub record AuthorizeDraw : Type 0 where
  pub salt : List ℕ
  pub code : Text
  pub cleaned_at : ℕ
  pub created_at : ℕ

pub record TokenForm : Type 0 where
  pub grant_type : Text
  pub client_id : Text
  pub client_secret : Text
  pub code : Text
  pub redirect_uri : Text
  pub code_verifier : Text
  pub refresh_token : Text

pub record TokenDraw : Type 0 where
  pub checked_at : ℕ
  pub issued_at : ℕ
  pub refresh_issued_at : ℕ
  pub refresh_expiry_at : ℕ
  pub jti : Text

-- The description is empty where the code gives none.
abbrev pub invalid_grant : Text → ProviderResponse
invalid_grant description = oauth_error 400 (codes "invalid_grant") description

abbrev pub invalid_client : ProviderResponse
invalid_client = oauth_error 401 (codes "invalid_client") []

unfoldable pub is_bad_request : Config → Text → Text → Text → Bool
unfolding allowed_redirect
is_bad_request config response_type client_id redirect_uri =
    not (text_eq response_type (codes "code"))
    || not (text_eq client_id config.client_id)
    || not (allowed_redirect config redirect_uri)

unfoldable pub authorize_get : Config → Text → Text → Text → ProviderResponse
unfolding is_bad_request
authorize_get config response_type client_id redirect_uri =
    if is_bad_request config response_type client_id redirect_uri then page 400 else page 200

abbrev pub code_record : AuthorizeForm → AuthorizeDraw → User → CodeRecord
code_record form draw user = record {
  email = user.email;
  client_id = form.client_id;
  redirect_uri = form.redirect_uri;
  scope = form.scope;
  nonce = form.nonce;
  code_challenge = form.code_challenge;
  method = form.code_challenge_method;
  created = draw.created_at;
}

-- `user is not None` and the password is the user's.
unfoldable pub authenticated : (Text → List ℕ → List ℕ) → List ℕ → Text → Text → Option User
authenticated scrypt salt email password = elim (find_user email) [
  | none ↦ none
  | some user ↦
      if verify_password scrypt password (hash_password scrypt salt user.password)
      then some user
      else none
]

unfoldable pub authorize_post :
    Config
    → (Text → List ℕ → List ℕ)
    → AuthorizeForm
    → AuthorizeDraw
    → CodeStore
    → ProviderResponse × CodeStore
unfolding authenticated
authorize_post config scrypt form draw store =
    if is_bad_request config form.response_type form.client_id form.redirect_uri
    then (page 400, store)
    else elim (authenticated scrypt draw.salt form.email form.password) [
      | none ↦ (page 401, store)
      | some user ↦ (
        redirect (redirect_target form.redirect_uri draw.code form.state),
        put_code draw.code (code_record form draw user)
            (cleanup_codes config draw.cleaned_at store),
      )
    ]

-- The PKCE check; `digest` is the unpadded URL-safe base64 of SHA-256.
unfoldable pub check_pkce : (Text → Text) → CodeRecord → Text → Option Bool
unfolding compare_digest
check_pkce digest r verifier =
    if is_empty r.code_challenge
    then some true
    else if is_empty verifier || not (text_eq (or_client r.method (codes "S256")) (codes "S256"))
    then some false
    else compare_digest (digest verifier) r.code_challenge

module _ (config : Config) (jwt : Jwt) (uuid5 digest : Text → Text) where
  abbrev pub grant_for : User → Text → Text → Text → Text → TokenDraw → ProviderResponse
  grant_for user client_id nonce scope refresh draw = granted (record {
    access_token = issue_access_token config uuid5 jwt user client_id nonce draw.issued_at;
    expires_in = config.access_token_minutes * 60;
    refresh_token = refresh;
    scope = scope;
  })

  -- A popped record, after the comparison with client and redirect and the PKCE check.
  unfoldable pub exchange : CodeRecord → TokenForm → TokenDraw → ProviderResponse
  exchange r form draw =
      if not (text_eq r.client_id form.client_id) || not (text_eq r.redirect_uri form.redirect_uri)
      then invalid_grant (codes "client/redirect mismatch")
      else elim (check_pkce digest r form.code_verifier) [
        | none ↦ server_error
        | some false ↦ invalid_grant (codes "PKCE verification failed")
        | some true ↦ elim (find_user r.email) [
          | none ↦ invalid_grant []
          | some user ↦
              grant_for user form.client_id r.nonce r.scope
                (issue_refresh_token config jwt user.email form.client_id draw.jti
                  draw.refresh_issued_at draw.refresh_expiry_at)
                draw
        ]
      ]

  unfoldable pub code_grant : TokenForm → TokenDraw → CodeStore → ProviderResponse × CodeStore
  code_grant form draw store = elim (find_code form.code store) [
    | none ↦ (invalid_grant (codes "code expired or unknown"), store)
    | some r ↦ (exchange r form draw, remove_code form.code store)
  ]

  abbrev refresh_with : TokenForm → TokenDraw → Option Payload → ProviderResponse
  refresh_with form draw none = invalid_grant (codes "refresh token invalid or expired")
  refresh_with form draw (some (access_claims c)) = invalid_grant (codes "not a refresh token")
  refresh_with form draw (some (refresh_claims c)) =
      if not (text_eq c.typ (codes "refresh"))
      then invalid_grant (codes "not a refresh token")
      else elim (find_user c.sub) [
        | none ↦ invalid_grant []
        | some user ↦ grant_for user form.client_id [] (codes "openid") form.refresh_token draw
      ]

  unfoldable pub refresh_grant : TokenForm → TokenDraw → ProviderResponse
  refresh_grant form draw =
      refresh_with form draw (jwt.decode form.refresh_token form.client_id draw.checked_at)

  abbrev by_grant : TokenForm → TokenDraw → CodeStore → ProviderResponse × CodeStore
  by_grant form draw store =
      if text_eq form.grant_type (codes "authorization_code")
      then code_grant form draw store
      else if text_eq form.grant_type (codes "refresh_token")
      then (refresh_grant form draw, store)
      else (oauth_error 400 (codes "unsupported_grant_type") [], store)

  unfoldable pub token_endpoint : TokenForm → TokenDraw → CodeStore → ProviderResponse × CodeStore
  unfolding compare_digest
  token_endpoint form draw store =
      if not (text_eq form.client_id config.client_id)
      then (invalid_client, store)
      else if is_empty form.client_secret
      then by_grant form draw store
      else elim (compare_digest form.client_secret config.client_secret) [
        | none ↦ (server_error, store)
        | some false ↦ (invalid_client, store)
        | some true ↦ by_grant form draw store
      ]

pub record Identity : Type 0 where
  pub email : Text
  pub role : Text
  pub site_id : Text
  pub site_name : Text
  pub display_name : Text

abbrev directory : List User → List Identity
directory [] = []
directory (u ∷ us) =
    record {
      email = u.email;
      role = u.role;
      site_id = u.site_id;
      site_name = site_name u.site_id;
      display_name = u.display_name;
    }
    ∷ directory us

-- GET /me; `none` of the comparison is the uncaught TypeError.
unfoldable pub me : Config → Text → Result (List Identity)
me config key = elim (compare_digest key config.api_key) [
  | none ↦ err (http_error 500)
  | some false ↦ err (http_error 401)
  | some true ↦ ok (directory users)
]
