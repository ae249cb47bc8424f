-- ===== src/Oidc/Issue.antt =====
-- oidc-provider/app/main.py: the claims of the access and refresh tokens. PyJWT's signing and its
-- check of a signature are parameters, and so is `uuid.uuid5`.
use processguard_ai.Oidc.Users.{User, site_name}
use processguard_ai.Oidc.Codes.{Config, second}
use processguard_ai.Base.{
  is_space, ◌/◌, text_eq, ℕ, ◌+◌, ◌-◌, ◌*◌, ◌≡◌, ◌≢◌, Bool, false, ◌&&◌, Option, none, some, List,
  [], ◌∷◌, ◌++◌, ltb, leb, if◌then◌else◌, All, Text, codes,
}

pub record AccessClaims : Type 0 where
  pub iss : Text
  pub aud : Text
  pub sub : Text
  pub name : Text
  pub preferred_username : Text
  pub email : Text
  pub roles : List Text
  pub site_id : Text
  pub site_name : Text
  pub iat : ℕ
  pub nbf : ℕ
  pub exp : ℕ
  pub oid : Text
  pub nonce : Option Text

pub record RefreshClaims : Type 0 where
  pub typ : Text
  pub iss : Text
  pub aud : Text
  pub sub : Text
  pub jti : Text
  pub iat : ℕ
  pub exp : ℕ

-- The payloads that the endpoints sign.
pub data Payload : Type 0 where
  access_claims : AccessClaims → Payload
  refresh_claims : RefreshClaims → Payload

pub record Jwt : Type 0 where
  pub encode : Payload → Text
  pub decode : Text → Text → ℕ → Option Payload

-- PyJWT's checks of audience and lifetime at a time in microseconds.
unfoldable pub is_current : Text → ℕ → Payload → Bool
is_current audience now (access_claims c) =
    text_eq c.aud audience
    && leb (c.iat * second) now
    && leb (c.nbf * second) now
    && ltb now (c.exp * second)
is_current audience now (refresh_claims c) =
    text_eq c.aud audience && leb (c.iat * second) now && ltb now (c.exp * second)

abbrev pub NotSpace : ℕ → Type 0
NotSpace c = is_space c ≡ false

-- What the services rely on: a token that the key signed decodes to what was signed, while current, and
-- a token is a text without white space.
pub record Signs (jwt : Jwt) : Type 0 where
  pub decode-encode :
      (p : Payload) (audience : Text) (now : ℕ)
      → jwt.decode (jwt.encode p) audience now
        ≡ (if is_current audience now p then some p else none)
  pub encode_ne : (p : Payload) → jwt.encode p ≢ []
  pub encode-NotSpace : (p : Payload) → All NotSpace (jwt.encode p)

abbrev pub or_client : Text → Text → Text
or_client [] other = other
or_client (c ∷ t) other = c ∷ t

abbrev present : Text → Option Text
present [] = none
present (c ∷ t) = some (c ∷ t)

module _ (config : Config) (uuid5 : Text → Text) where
  -- The payload of `_issue_access_token`; `none` and the empty nonce add no claim.
  unfoldable pub access_payload : User → Text → Text → ℕ → AccessClaims
  unfolding site_name
  access_payload user client_id nonce time =
      let now = time / second in
      record {
        iss = config.issuer;
        aud = or_client client_id config.client_id;
        sub = user.email;
        name = user.display_name;
        preferred_username = user.email;
        email = user.email;
        roles = user.role ∷ [];
        site_id = user.site_id;
        site_name = site_name user.site_id;
        iat = now;
        nbf = now - 5;
        exp = now + config.access_token_minutes * 60;
        oid = uuid5 (codes "pgai-demo:" ++ user.email);
        nonce = present nonce;
      }

  unfoldable pub issue_access_token : Jwt → User → Text → Text → ℕ → Text
  unfolding access_payload
  issue_access_token jwt user client_id nonce time =
      jwt.encode (access_claims (access_payload user client_id nonce time))

-- The clock is read once for `iat` and once for `exp`; `jti` is drawn by `secrets`.
unfoldable pub refresh_payload : Config → Text → Text → Text → ℕ → ℕ → RefreshClaims
refresh_payload config email client_id jti issued expiry = record {
  typ = codes "refresh";
  iss = config.issuer;
  aud = client_id;
  sub = email;
  jti = jti;
  iat = issued / second;
  exp = expiry / second + 60 * 60 * 24;
}

unfoldable pub issue_refresh_token : Config → Jwt → Text → Text → Text → ℕ → ℕ → Text
unfolding refresh_payload
issue_refresh_token config jwt email client_id jti issued expiry =
    jwt.encode (refresh_claims (refresh_payload config email client_id jti issued expiry))
