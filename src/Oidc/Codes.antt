-- ===== src/Oidc/Codes.antt =====
-- oidc-provider/app/main.py: `_CODES`, the codes that wait to be redeemed, and the redirect URIs that
-- config.py allows. `time.time()` is a number of microseconds.
use processguard_ai.Base.{
  ◌%◌, starts_with, ◌/◌, text_eq, ℕ, ◌+◌, ◌-◌, ◌*◌, Bool, not, ◌&&◌, ◌||◌, Option, none, some, List,
  [], ◌∷◌, ◌++◌, ltb, leb, ◌==◌, if◌then◌else◌, keep, any, Text, codes,
}

pub record Config : Type 0 where
  pub issuer : Text
  pub client_id : Text
  pub client_secret : Text
  pub access_token_minutes : ℕ
  pub code_ttl_seconds : ℕ
  pub api_key : Text
  pub allowed_redirects : List Text

pub record CodeRecord : Type 0 where
  pub email : Text
  pub client_id : Text
  pub redirect_uri : Text
  pub scope : Text
  pub nonce : Text
  pub code_challenge : Text
  pub method : Text
  pub created : ℕ

-- The dictionary, in the order of insertion.
abbrev pub CodeStore : Type 0
CodeStore = List (Text × CodeRecord)

abbrev pub second : ℕ
second = 1000000

unfoldable pub find_code : Text → CodeStore → Option CodeRecord
find_code code [] = none
find_code code ((c, r) ∷ s) = let rest = find_code code s in if text_eq c code then some r else rest

unfoldable pub remove_code : Text → CodeStore → CodeStore
remove_code code [] = []
remove_code code ((c, r) ∷ s) =
    let rest = remove_code code s in if text_eq c code then rest else (c, r) ∷ rest

unfoldable pub put_code : Text → CodeRecord → CodeStore → CodeStore
put_code code r [] = (code, r) ∷ []
put_code code r ((c, r') ∷ s) =
    let rest = put_code code r s in if text_eq c code then (c, r) ∷ s else (c, r') ∷ rest

unfoldable pub cleanup_codes : Config → ℕ → CodeStore → CodeStore
cleanup_codes config now =
    keep λ (e : Text × CodeRecord). not (ltb (config.code_ttl_seconds * second) (now - e.1.created))

has_mark : ℕ → Text → Bool
has_mark mark s = any (λ c. c == mark) s

abbrev pub matches_redirect : Text → Text → Bool
unfolding has_mark
matches_redirect uri allowed =
    text_eq uri allowed
    || starts_with (allowed ++ (if not (has_mark b'?' allowed) then b'?' else b'#') ∷ []) uri

unfoldable pub allowed_redirect : Config → Text → Bool
unfolding has_mark
allowed_redirect config uri = any (matches_redirect uri) config.allowed_redirects

-- `urllib.parse.quote`: the UTF-8 bytes, escaped but for letters, digits and `_.-~/`.
utf8 : ℕ → List ℕ
utf8 c =
    if ltb c 128
    then c ∷ []
    else if ltb c 2048
    then (192 + c / 64) ∷ (128 + c % 64) ∷ []
    else if ltb c 65536
    then (224 + c / 4096) ∷ (128 + c / 64 % 64) ∷ (128 + c % 64) ∷ []
    else (240 + c / 262144) ∷ (128 + c / 4096 % 64) ∷ (128 + c / 64 % 64) ∷ (128 + c % 64) ∷ []

is_unreserved : ℕ → Bool
is_unreserved c =
    leb b'a' c && leb c b'z'
    || leb b'A' c && leb c b'Z'
    || leb b'-' c && leb c b'9'
    || c == b'_'
    || c == b'~'

hex_upper : ℕ → ℕ
hex_upper d = if ltb d 10 then b'0' + d else b'A' + (d - 10)

quote_bytes : List ℕ → Text
unfolding is_unreserved hex_upper
quote_bytes [] = []
quote_bytes (b ∷ bs) =
    (if is_unreserved b then b ∷ [] else b'%' ∷ hex_upper (b / 16) ∷ hex_upper (b % 16) ∷ [])
    ++ quote_bytes bs

unfoldable pub quote : Text → Text
unfolding utf8 quote_bytes
quote [] = []
quote (c ∷ s) = quote_bytes (utf8 c) ++ quote s

-- The redirect back to the client.
unfoldable pub redirect_target : Text → Text → Text → Text
unfolding has_mark quote
redirect_target redirect_uri code state =
    redirect_uri
    ++ ((if has_mark b'?' redirect_uri then b'&' else b'?') ∷ codes "code="
        ++ (quote code ++ (codes "&state=" ++ quote state)))
