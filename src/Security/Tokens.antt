-- ===== src/Security/Tokens.antt =====
-- `validate_token` and `require_principal`. Resolving the key and decoding a token (PyJWT: signature,
-- audience, lifetime) are a parameter that yields the claims of a token it accepts.
use processguard_ai.Security.Policy.{has_role}
use processguard_ai.Security.Principals.{principal_role, principal_site, Principal, Claims}
use processguard_ai.Base.{
  drop_text, lower, http_error, starts_with, strip, ◌≡◌, ◌≢◌, inl, inr, true, not, ◌||◌, Option,
  none, some, List, [], arith, if◌then◌else◌, Option-cases, is_empty, Text, codes, Result, ok, err,
}

abbrev pub bearer_prefix : Text
bearer_prefix = codes "bearer "

unfoldable pub bare_token : Text → Text
bare_token header =
    let token = strip header in
    if starts_with bearer_prefix (lower token) then strip (drop_text 7 token) else token

module _ (decode : Text → Option Claims) (valid_issuers : List Text) where
  abbrev check_claims : Text → Claims → Option Principal
  check_claims token claims =
      let p : Principal = record { token = token; payload = claims } in
      if not (has_role claims.iss valid_issuers)
      then none
      else if is_empty (principal_site p) || is_empty (principal_role p)
      then none
      else some p

  -- `none` is TokenRejected.
  unfoldable pub validate_token : Text → Option Principal
  unfolding bare_token
  validate_token header =
      let token = bare_token header in
      if is_empty token
      then none
      else elim (decode token) [ none ↦ none | some claims ↦ check_claims token claims ]

  unfoldable pub require_principal : Text → Result Principal
  require_principal header = elim (validate_token header) [
    | none ↦ err (http_error 401)
    | some p ↦ ok p
  ]

  -- A request passes only with a token that the identity provider's key accepts, from a trusted issuer,
  -- with a site and a role; the caller is then who that token says.
  pub require_principal-ok :
      (header : Text) (p : Principal)
      → require_principal header ≡ ok p
      → (decode p.token ≡ some p.payload)
        × (p.token ≡ bare_token header)
        × (has_role p.payload.iss valid_issuers ≡ true)
        × (principal_site p ≢ [])
        × (principal_role p ≢ [])
  unfolding require_principal validate_token
  require_principal-ok header p h = elim (Option-cases (decode (bare_token header))) [
    | inl unknown ↦ absurd (ground arith)
    | inr (claims, accepted) ↦
        let same : record { token = bare_token header; payload = claims } ≡ p = ground arith in
        ground arith
  ]
