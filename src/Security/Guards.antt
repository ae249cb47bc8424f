-- ===== src/Security/Guards.antt =====
-- `ensure_site`, `ensure_role` and `ensure_approval_level`: each returns, or raises the 403.
use processguard_ai.Security.Principals.{principal_site, principal_role, Principal}
use processguard_ai.Security.Policy.{level_for, has_role, RbacPolicy}
use processguard_ai.Base.{
  http_error, lower, text_eq, ℕ, Option, none, some, List, ltb, if◌then◌else◌, Text, Result, ok,
  err,
}

infixl 5 ◌>>◌
abbrev pub ◌>>◌ {ℓ} : {A : Type ℓ} → Result (Unit {0}) → Result A → Result A
ok u >> k = k
err e >> k = err e

unfoldable pub ensure_site : Principal → Option Text → Result (Unit {0})
ensure_site p none = ok tt
ensure_site p (some site) =
    if text_eq (lower site) (lower (principal_site p)) then ok tt else err (http_error 403)

unfoldable pub ensure_role : Principal → List Text → Result (Unit {0})
ensure_role p allowed = if has_role (principal_role p) allowed then ok tt else err (http_error 403)

unfoldable pub ensure_approval_level : RbacPolicy → Principal → ℕ → Result (Unit {0})
ensure_approval_level policy p required =
    if ltb (level_for policy (principal_role p)) required then err (http_error 403) else ok tt
