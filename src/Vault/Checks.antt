-- ===== src/Vault/Checks.antt =====
-- crates/nxb-vault/src/lib.rs: the checks of inputs, bindings and contexts.
use bound_seal.Std.Order.{list_ord, nat_ord}
use bound_seal.Std.Text.Bytes.{is_ascii_control}
use bound_seal.Std.Collections.{set_insert, contains}
use bound_seal.Std.Text.{
  ends_with, eq_text, trim_end_matches, text, is_ascii_alphanumeric, to_ascii_lowercase,
  starts_with, Text,
}
use bound_seal.Vault.Types.{
  invalid_secret_size, SecretKind, SecretInput, SecretBinding, CookieMetadata, SecretEntry,
  VaultAccessContext, cookie_kind, invalid_header_value, by_cookie, access_denied, by_header,
  SecretDelivery, invalid_binding, secret_expired, VaultError, invalid_identifier,
  invalid_header_name, invalid_delivery,
}
use bound_seal.Std.Int.{pos, ℤ, at_least}
use bound_seal.Http1.Fields.{is_prohibited, is_token_byte, is_one_of}
use bound_seal.Common.{
  ◌>>=◌, ◌>>◌, fail_if, some, ok, all, err, ◌∷◌, any, not, ◌==◌, ◌||◌, [], is_empty, false, none,
  ltb, ◌*◌, ◌&&◌, length, ℕ, Bool, Option, List, Result,
}

abbrev pub max_secret_bytes : ℕ
max_secret_bytes = 64 * 1024

abbrev pub max_secret_lease_seconds : ℤ
max_secret_lease_seconds = pos 300

abbrev pub max_secret_handles_per_lease : ℕ
max_secret_handles_per_lease = 256

unfoldable pub validate_identifier : Text → Text → Result VaultError (Unit {0})
validate_identifier value name =
    fail_if
      (is_empty value
        || ltb 128 (length value)
        || not (all (λ c. is_ascii_alphanumeric c || c == b'-' || c == b'_' || c == b'.') value))
      (invalid_identifier name)

unfoldable pub normalize_host : Text → Result VaultError Text
normalize_host host = do
  let normalized = to_ascii_lowercase (trim_end_matches b'.' host)
  fail_if
      (is_empty normalized
        || ltb 253 (length normalized)
        || starts_with b'.' normalized
        || ends_with b'.' normalized
        || any (λ c. not (is_ascii_alphanumeric c || c == b'.' || c == b'-')) normalized)
      (invalid_binding (text "host is invalid"))
  ok normalized

unfoldable pub normalize_scheme : Text → Result VaultError Text
normalize_scheme scheme = do
  let normalized = to_ascii_lowercase scheme
  fail_if (not (eq_text normalized (text "http") || eq_text normalized (text "https")))
      (invalid_binding (text "scheme is invalid"))
  ok normalized

unfoldable pub validate_header_name : Text → Result VaultError (Unit {0})
validate_header_name name =
    fail_if (is_empty name || ltb 256 (length name) || not (all is_token_byte name))
      invalid_header_name

unfoldable pub validate_header_value : Text → Result VaultError (Unit {0})
validate_header_value value = fail_if (any is_prohibited value) invalid_header_value

unfoldable pub is_protocol_managed_header : Text → Bool
is_protocol_managed_header = is_one_of (
    text "host"
    ∷ text "content-length"
    ∷ text "transfer-encoding"
    ∷ text "connection"
    ∷ text "proxy-connection"
    ∷ text "expect"
    ∷ text "upgrade"
    ∷ text "trailer"
    ∷ text "te"
    ∷ [])

unfoldable pub validate_cookie : CookieMetadata → Result VaultError (Unit {0})
validate_cookie cookie = do
  fail_if
      (is_empty cookie.name
        || not (all is_token_byte cookie.name)
        || is_empty cookie.path
        || not (starts_with b'/' cookie.path)
        || any is_ascii_control cookie.path)
      (invalid_delivery (text "cookie name or path is invalid"))
  _ ← normalize_host cookie.domain
  ok tt

-- The five identifiers of a binding or a context.
unfoldable pub validate_ids : Text → Text → Text → Text → Text → Result VaultError (Unit {0})
validate_ids run_id worker_id account_id tenant_id role_id = do
  validate_identifier run_id (text "run_id")
  validate_identifier worker_id (text "worker_id")
  validate_identifier account_id (text "account_id")
  validate_identifier tenant_id (text "tenant_id")
  validate_identifier role_id (text "role_id")

-- `.map(check).collect::<Result<BTreeSet<_>, _>>()`, from a set that is there.
unfoldable pub collect_set :
    (Text → Result VaultError Text) → List Text → List Text → Result VaultError (List Text)
collect_set check so_far [] = ok so_far
collect_set check so_far (word ∷ words) = do
  normalized ← check word
  collect_set check (set_insert normalized so_far) words

unfoldable pub normalized_binding : SecretBinding → Result VaultError SecretBinding
normalized_binding binding = do
  validate_ids binding.run_id binding.worker_id binding.account_id binding.tenant_id binding.role_id
  fail_if (is_empty binding.allowed_hosts || is_empty binding.allowed_schemes)
      (invalid_binding (text "host and scheme sets must not be empty"))
  hosts ← collect_set normalize_host [] binding.allowed_hosts
  schemes ← collect_set normalize_scheme [] binding.allowed_schemes
  ok record {
    run_id = binding.run_id;
    worker_id = binding.worker_id;
    account_id = binding.account_id;
    tenant_id = binding.tenant_id;
    role_id = binding.role_id;
    allowed_hosts = hosts;
    allowed_schemes = schemes;
  }

unfoldable pub normalized_context : VaultAccessContext → Result VaultError VaultAccessContext
normalized_context context = do
  validate_ids context.run_id context.worker_id context.account_id context.tenant_id context.role_id
  authority ← normalize_host context.authority
  scheme ← normalize_scheme context.scheme
  ok record {
    run_id = context.run_id;
    worker_id = context.worker_id;
    account_id = context.account_id;
    tenant_id = context.tenant_id;
    role_id = context.role_id;
    authority = authority;
    scheme = scheme;
  }

-- `is_some_and(|expires| now >= expires)`
abbrev pub is_expired : Option ℤ → ℤ → Bool
is_expired none now = false
is_expired (some expires) now = at_least now expires

unfoldable pub validate_delivery : SecretKind → SecretDelivery → Result VaultError (Unit {0})
validate_delivery cookie_kind (by_cookie cookie) = validate_cookie cookie
validate_delivery cookie_kind (by_header name prefix) =
    err (invalid_delivery (text "cookie secrets must use cookie delivery"))
validate_delivery kind (by_cookie cookie) =
    err (invalid_delivery (text "non-cookie secrets must use header delivery"))
validate_delivery kind (by_header name prefix) = do
  validate_header_name name
  fail_if (is_protocol_managed_header (to_ascii_lowercase name))
      (invalid_delivery (text "framing and authority headers cannot contain secrets"))
  validate_header_value prefix

unfoldable pub validate_secret_input : SecretInput → ℤ → Result VaultError (Unit {0})
validate_secret_input input now = do
  fail_if (is_empty input.value || ltb max_secret_bytes (length input.value)) invalid_secret_size
  validate_header_value input.value
  _ ← normalized_binding input.binding
  fail_if (is_expired input.expires_at_epoch_seconds now) secret_expired
  validate_delivery input.kind input.delivery

unfoldable pub has_identity : SecretBinding → VaultAccessContext → Bool
has_identity binding context =
    eq_text binding.run_id context.run_id
    && eq_text binding.worker_id context.worker_id
    && eq_text binding.account_id context.account_id
    && eq_text binding.tenant_id context.tenant_id
    && eq_text binding.role_id context.role_id

unfoldable pub validate_entry_identity :
    SecretEntry → VaultAccessContext → ℤ → Result VaultError (Unit {0})
validate_entry_identity entry context now = do
  fail_if (is_expired entry.metadata.expires_at_epoch_seconds now) secret_expired
  fail_if (not (has_identity entry.metadata.binding context)) access_denied

-- The host and the scheme of a context are among those of a binding.
abbrev pub is_reachable : SecretBinding → VaultAccessContext → Bool
is_reachable binding context =
    contains context.authority binding.allowed_hosts
    && contains context.scheme binding.allowed_schemes

unfoldable pub validate_entry_access :
    SecretEntry → VaultAccessContext → ℤ → Result VaultError (Unit {0})
validate_entry_access entry context now = do
  validate_entry_identity entry context now
  fail_if (not (is_reachable entry.metadata.binding context)) access_denied
