-- ===== src/Vault/Cookies.antt =====
-- crates/nxb-vault/src/lib.rs: which cookies apply to a request.
use bound_seal.Std.Int.{ℤ}
use bound_seal.Vault.Checks.{normalize_host, is_expired}
use bound_seal.Std.Text.Bytes.{is_ascii_control}
use bound_seal.Vault.Types.{VaultError, VaultAccessContext, CookieMetadata, invalid_request_target}
use bound_seal.Std.Order.{nat_ord, list_ord}
use bound_seal.Std.Text.{eq_text, Text, contains_byte, starts_with, ends_with, is_prefix, text}
use bound_seal.Common.{
  if◌then◌else◌, any, ◌&&◌, take, not, ◌>>=◌, [], leb, some, none, ok, ◌-◌, is_empty, ◌∷◌, ◌==◌,
  ◌||◌, fail_if, length, false, drop, Bool, Option, Result,
}

-- `strip_suffix`
unfoldable pub strip_suffix : Text → Text → Option Text
strip_suffix suffix s =
    if leb (length suffix) (length s) && eq_text (drop (length s - length suffix) s) suffix
    then some (take (length s - length suffix) s)
    else none

unfoldable pub domain_matches : Text → Text → Bool
domain_matches host domain =
    eq_text host domain
    || elim (strip_suffix domain host) [ none ↦ false | some prefix ↦ ends_with b'.' prefix ]

-- `target.split('?').next()`
unfoldable pub before_query : Text → Text
before_query [] = []
before_query (c ∷ r) = let rest = before_query r in if c == b'?' then [] else c ∷ rest

unfoldable pub cookie_path_matches : Text → Text → Bool
cookie_path_matches target cookie_path =
    eq_text (before_query target) cookie_path
    || (is_prefix cookie_path (before_query target)
        && (ends_with b'/' cookie_path
            || starts_with b'/' (drop (length cookie_path) (before_query target))))

unfoldable pub validate_request_target : Text → Result VaultError (Unit {0})
validate_request_target target =
    if eq_text target (text "*")
    then ok tt
    else fail_if
        (is_empty target
          || not (starts_with b'/' target)
          || contains_byte b'#' target
          || any (λ c. is_ascii_control c || c == b' ') target)
        invalid_request_target

unfoldable pub cookie_applies :
    CookieMetadata → VaultAccessContext → Text → ℤ → Result VaultError Bool
cookie_applies cookie context request_target now = do
  domain ← normalize_host cookie.domain
  ok (
      not (
        not (domain_matches context.authority domain)
        || not (cookie_path_matches request_target cookie.path)
        || (cookie.secure && not (eq_text context.scheme (text "https")))
        || is_expired cookie.expires_at_epoch_seconds now))
