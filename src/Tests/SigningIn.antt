-- ===== src/Tests/SigningIn.antt =====
-- The identity provider: a maintenance engineer signs in, redeems the code and calls the agent service.
use processguard_ai.Security.{Principal, principal_site, principal_role, username}
use processguard_ai.Security.Tokens.{validate_token}
use processguard_ai.Oidc.SignIn.{decode_claims}
use processguard_ai.Oidc.Bearer.{sign_in}
use processguard_ai.Oidc.Apart.{tokens_apart, stale_code_redeems}
use processguard_ai.Oidc.Redeem.{authorizes, serve_request, redeemed_once, run_requests}
use processguard_ai.Oidc.Completed.{token_endpoint-CompletedBy, CompletedBy}
use processguard_ai.Oidc.History.{Somewhere}
use processguard_ai.Tests.Signing.{plain, plain-Signs}
use processguard_ai.Oidc.{
  token_endpoint, hex, code_record, code_grant, exchange, User, users, find_user, Config,
  CodeRecord, CodeStore, AuthorizeForm, AuthorizeDraw, TokenForm, TokenDraw, Grant, granted,
  redirect, redirect_target, authorize_post, is_bad_request, allowed_redirect, verify_password,
  hash_password, compare_digest, check_pkce, issue_access_token, issue_refresh_token, refresh_grant,
  cleanup_codes, find_code, put_code,
}
use processguard_ai.Base.{
  lstrip, strip, lower, ℕ, ◌≡◌, refl, ◌≢◌, inr, none, some, List, [], ◌∷◌, ◌++◌, arith, Text, codes,
}

abbrev provider : Config
provider = record {
  issuer = codes "http://oidc";
  client_id = codes "web";
  client_secret = codes "s3";
  access_token_minutes = 60;
  code_ttl_seconds = 120;
  api_key = codes "k";
  allowed_redirects = codes "http://app/cb" ∷ [];
}

-- Stand-ins for scrypt and SHA-256 that keep their argument.
abbrev plain_scrypt : Text → List ℕ → List ℕ
plain_scrypt password salt = password ++ salt

abbrev same : Text → Text
same s = s

abbrev engineer : User
engineer = record {
  email = codes "maintenance@site12.demo";
  password = codes "maintenance-pass";
  role = codes "MaintenanceEngineer";
  site_id = codes "11111111-1111-1111-1111-111111111111";
  display_name = codes "Site 12 Maintenance Engineer";
}

abbrev ask : AuthorizeForm
ask = record {
  response_type = codes "code";
  client_id = codes "web";
  redirect_uri = codes "http://app/cb?x=1";
  scope = codes "openid";
  state = codes "s 1";
  nonce = [];
  code_challenge = codes "vvv";
  code_challenge_method = codes "S256";
  email = codes " Maintenance@site12.demo";
  password = codes "maintenance-pass";
}

abbrev ask_draw : AuthorizeDraw
ask_draw = record {
  salt = 1 ∷ 255 ∷ [];
  code = codes "c0";
  cleaned_at = 5000000;
  created_at = 5000001;
}

abbrev redeem : TokenForm
redeem = record {
  grant_type = codes "authorization_code";
  client_id = codes "web";
  client_secret = [];
  code = codes "c0";
  redirect_uri = codes "http://app/cb?x=1";
  code_verifier = codes "vvv";
  refresh_token = [];
}

abbrev redeem_draw : TokenDraw
redeem_draw = record {
  checked_at = 6000000;
  issued_at = 6000000;
  refresh_issued_at = 6000000;
  refresh_expiry_at = 6000001;
  jti = codes "j";
}

sent_back :
    (authorize_post provider plain_scrypt ask ask_draw []).0
    ≡ redirect (codes "http://app/cb?x=1&code=c0&state=s%201")
unfolding authorize_post find_user users lower strip lstrip is_bad_request allowed_redirect
    verify_password hash_password redirect_target hex
sent_back = refl

abbrev stored : CodeStore
stored = (authorize_post provider plain_scrypt ask ask_draw []).1

sign_in_example :
    let (answer, left) = authorize_post provider plain_scrypt ask ask_draw [] in
    (answer ≡ redirect (redirect_target ask.redirect_uri ask_draw.code ask.state))
    × (g : Grant) × ((token_endpoint provider plain same same redeem redeem_draw left).0
        ≡ granted g)
    × (p : Principal) × (validate_token
          (decode_claims plain provider.client_id 7000000)
          (codes "http://oidc" ∷ [])
          (codes "Bearer " ++ g.access_token)
        ≡ some p)
    × (principal_site p ≡ engineer.site_id)
    × (principal_role p ≡ engineer.role)
    × (username p ≡ engineer.email)
unfolding is_bad_request allowed_redirect find_user users lower strip lstrip compare_digest
sign_in_example =
    sign_in provider plain same same plain_scrypt (codes "http://oidc" ∷ []) ask ask_draw []
      engineer redeem redeem_draw 7000000 plain-Signs (omega arith, (omega arith, tt)) refl refl
      refl
      (record {
        by_code = refl;
        same_client = refl;
        same_redirect = refl;
        no_secret = refl;
        same_code = refl;
        opens = inr (record { given = refl; by_s256 = refl; digests = refl });
      })
      refl (omega arith) (omega arith)

abbrev engineer_grant : Grant
engineer_grant = record {
  access_token = issue_access_token provider same plain engineer (codes "web") [] 6000000;
  expires_in = 3600;
  refresh_token =
      issue_refresh_token provider plain engineer.email (codes "web") (codes "j") 6000000 6000001;
  scope = codes "openid";
}

redeemed :
    (token_endpoint provider plain same same redeem redeem_draw
      (run_requests provider plain same same plain_scrypt (authorizes ask ask_draw ∷ []) [])).0
    ≡ granted engineer_grant
unfolding run_requests serve_request token_endpoint code_grant exchange check_pkce compare_digest
    put_code find_code authorize_post find_user users lower strip lstrip is_bad_request
    allowed_redirect verify_password hash_password hex cleanup_codes
redeemed = refl

token_endpoint-CompletedBy_example :
    Somewhere
      (CompletedBy provider plain_scrypt plain same same redeem redeem_draw engineer_grant)
      (authorizes ask ask_draw ∷ [])
token_endpoint-CompletedBy_example =
    token_endpoint-CompletedBy provider plain_scrypt plain same same (authorizes ask ask_draw ∷ [])
      redeem redeem_draw engineer_grant refl redeemed

redeemed_once_example :
    (token_endpoint provider plain same same redeem redeem_draw (
      run_requests provider plain same same plain_scrypt
        (authorizes ask (record ask_draw { code = codes "c1" }) ∷ [])
        (token_endpoint provider plain same same redeem redeem_draw (
          run_requests provider plain same same plain_scrypt
            (authorizes ask ask_draw ∷ [])
            [])).1)).0
    ≢ granted engineer_grant
redeemed_once_example =
    redeemed_once provider plain same same plain_scrypt redeem redeem_draw
      (run_requests provider plain same same plain_scrypt (authorizes ask ask_draw ∷ []) [])
      engineer_grant refl redeemed (authorizes ask (record ask_draw { code = codes "c1" }) ∷ [])
      (refl, tt) redeem redeem_draw engineer_grant refl refl

tokens_apart_example :
    (validate_token (decode_claims plain (codes "web") 7000000) (codes "http://oidc" ∷ []) (
        codes "Bearer "
        ++ issue_refresh_token provider plain engineer.email
            (codes "web")
            (codes "j")
            6000000
            6000001)
      ≡ none)
    × (refresh_grant provider plain same same
          (record redeem { refresh_token = engineer_grant.access_token })
          redeem_draw
        ≢ granted engineer_grant)
tokens_apart_example =
    tokens_apart provider plain same same plain-Signs (codes "http://oidc" ∷ []) (codes "web")
      7000000 engineer.email (codes "web") (codes "j") 6000000 6000001 engineer [] 6000000
      (record redeem { refresh_token = engineer_grant.access_token }) redeem_draw engineer_grant
      refl

-- An hour after the sign-in.
abbrev late_draw : TokenDraw
late_draw = record redeem_draw { issued_at = 3600000000 }

abbrev engineer_record : CodeRecord
engineer_record = code_record ask ask_draw engineer

stale_code_redeems_example :
    ((g : Grant) × ((token_endpoint provider plain same same redeem late_draw
          ((codes "c0", engineer_record) ∷ [])).0
        ≡ granted g))
    × (cleanup_codes provider late_draw.issued_at ((redeem.code, engineer_record) ∷ []) ≡ [])
unfolding find_code check_pkce compare_digest find_user users lower strip lstrip
stale_code_redeems_example =
    stale_code_redeems provider plain same same redeem late_draw
      ((codes "c0", engineer_record) ∷ []) engineer_record engineer (omega arith) refl refl refl
      refl refl refl refl refl
