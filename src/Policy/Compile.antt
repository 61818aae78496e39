-- ===== src/Policy/Compile.antt =====
-- crates/nxb-policy/src/lib.rs: `TargetPolicy::compile` with `validate_top_level`, and the scope
-- tests of `CompiledPolicy`.
use bound_seal.Common.{
  ℕ, Bool, true, false, not, ◌&&◌, ◌||◌, none, some, ltb, leb, ◌==◌, if◌then◌else◌, is_empty, any,
  Result, ok, ◌>>=◌, ◌>>◌, fail_if,
}
use bound_seal.Std.Text.{Text, text, to_ascii_uppercase, trim}
use bound_seal.Std.Order.{list_ord, nat_ord}
use bound_seal.Std.Collections.{contains}
use bound_seal.Std.Float.{Float64}
use bound_seal.External.{UrlLib}
use bound_seal.Policy.Types.{
  TargetPolicy, CompiledPolicy, PolicyError, invalid, unsupported_schema_version, empty_program,
  no_include_host, not_confirmed, empty_researcher, expired, bad_snapshot_digest, bruteforce_denied,
  destructive_denied, not_finite_positive, rate_above_maximum, concurrency_out_of_range,
  total_out_of_range, host_included_and_excluded,
}
use bound_seal.Policy.Hosts.{
  host_form, normalize_host_set, normalize_schemes, normalize_methods, matches_host_set,
  is_lower_hex_sha256,
}

abbrev pub policy_schema_version : ℕ
policy_schema_version = 1

-- `MAX_REQUESTS_PER_SECOND` is 5.0
abbrev pub max_requests_per_second_limit : ℕ
max_requests_per_second_limit = 5

abbrev pub max_concurrency_limit : ℕ
max_concurrency_limit = 8

abbrev pub max_total_requests_limit : ℕ
max_total_requests_limit = 100000

module _ (f : Float64) where
  open f use {F, literal, is_finite, lt, le}

  unfoldable pub require_finite_positive : Text → F → Result PolicyError (Unit {0})
  require_finite_positive field value =
      fail_if (not (is_finite value) || le value (literal 0)) (invalid (not_finite_positive field))

  unfoldable pub validate_top_level : TargetPolicy F → ℕ → Result PolicyError (Unit {0})
  validate_top_level policy now = do
    fail_if (not (policy.schema_version == policy_schema_version))
        (invalid (unsupported_schema_version policy.schema_version))
    fail_if (is_empty (trim policy.program.name) || is_empty (trim policy.program.platform))
        (invalid empty_program)
    fail_if (is_empty policy.scope.include_hosts) (invalid no_include_host)
    fail_if (not policy.authorization.confirmed) (invalid not_confirmed)
    fail_if (is_empty (trim policy.authorization.researcher)) (invalid empty_researcher)
    fail_if (leb policy.authorization.expires_at now) (invalid expired)
    fail_if (not (is_lower_hex_sha256 policy.authorization.policy_snapshot_sha256))
        (invalid bad_snapshot_digest)
    fail_if policy.automation.credential_bruteforce (invalid bruteforce_denied)
    fail_if policy.automation.destructive_testing (invalid destructive_denied)
    require_finite_positive (text "max_requests_per_second")
        policy.automation.max_requests_per_second
    fail_if (lt (literal max_requests_per_second_limit) policy.automation.max_requests_per_second)
        (invalid rate_above_maximum)
    fail_if
        (policy.automation.max_concurrency == 0
          || ltb max_concurrency_limit policy.automation.max_concurrency)
        (invalid concurrency_out_of_range)
    fail_if
        (policy.automation.max_total_requests == 0
          || ltb max_total_requests_limit policy.automation.max_total_requests)
        (invalid total_out_of_range)

  -- `TargetPolicy::compile`
  unfoldable pub compile : TargetPolicy F → ℕ → Result PolicyError (CompiledPolicy F)
  compile policy now = do
    validate_top_level policy now
    include_hosts ← normalize_host_set (text "include_hosts") policy.scope.include_hosts
    exclude_hosts ← normalize_host_set (text "exclude_hosts") policy.scope.exclude_hosts
    allowed_schemes ← normalize_schemes policy.scope.allowed_schemes
    allowed_methods ← normalize_methods policy.scope.allowed_methods
    fail_if (any (λ host. contains host exclude_hosts) include_hosts)
        (invalid host_included_and_excluded)
    ok (record {
      inner = policy;
      include_hosts = include_hosts;
      exclude_hosts = exclude_hosts;
      allowed_schemes = allowed_schemes;
      allowed_methods = allowed_methods;
    })

-- `CompiledPolicy::allows_host`
unfoldable pub allows_host : {R : Type 0} → CompiledPolicy R → Text → Bool
allows_host policy host =
    let candidate = host_form host in
    if matches_host_set candidate policy.exclude_hosts true
    then false
    else matches_host_set candidate policy.include_hosts policy.inner.scope.allow_subdomains

module _ (u : UrlLib) where
  open u use {Url, scheme, username, password, host_str}

  abbrev has_password : Url → Bool
  has_password url = elim (password url) [ none ↦ false | some _ ↦ true ]

  -- `CompiledPolicy::allows_request`
  unfoldable pub allows_request : {R : Type 0} → CompiledPolicy R → Url → Text → Bool
  allows_request policy url method =
      if not (is_empty (username url)) || has_password url then false else elim (host_str url) [
        | none ↦ false
        | some host ↦
            contains (scheme url) policy.allowed_schemes
            && contains (to_ascii_uppercase method) policy.allowed_methods
            && allows_host policy host
      ]
