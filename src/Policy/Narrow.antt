-- ===== src/Policy/Narrow.antt =====
-- crates/nxb-policy/src/lib.rs: `CompiledPolicy::narrow`, one function for each part of the child.
use bound_seal.Common.{
  ℕ, Bool, true, false, not, ◌&&◌, Option, none, some, List, ltb, leb, ◌==◌, is_empty, find, Result,
  ok, err, ◌>>=◌, ◌>>◌, fail_if,
}
use bound_seal.Std.Text.{Text, text}
use bound_seal.Std.Order.{list_ord, nat_ord}
use bound_seal.Std.Collections.{set_extend}
use bound_seal.Std.Float.{Float64}
use bound_seal.Policy.Types.{
  TargetPolicy, ChildPolicy, CompiledPolicy, PolicyError, invalid, broadening, child_without_hosts,
  child_zero_concurrency, child_zero_total, child_expired, host_not_permitted, enables_subdomains,
  enables_active_testing, enables_callbacks, exceeds_rate, exceeds_concurrency, exceeds_total,
  outlives_parent,
}
use bound_seal.Policy.Hosts.{
  normalize_host_set, normalize_schemes, normalize_methods, require_subset,
}
use bound_seal.Policy.Compile.{allows_host, compile, require_finite_positive}

-- `iter().find(|host| !self.allows_host(host))`
abbrev pub refuse_host : Option Text → Result PolicyError (Unit {0})
refuse_host none = ok tt
refuse_host (some host) = err (broadening (host_not_permitted host))

module _ (f : Float64) (parent : CompiledPolicy f.F) where
  open f use {F, lt}

  abbrev Step : Type 0
  Step = Result PolicyError (TargetPolicy F)

  unfoldable pub narrow_include : Option (List Text) → TargetPolicy F → Step
  narrow_include none t = ok t
  narrow_include (some hosts) t = do
    fail_if (is_empty hosts) (invalid child_without_hosts)
    normalized ← normalize_host_set (text "child include_hosts") hosts
    refuse_host (find (λ host. not (allows_host parent host)) normalized)
    ok (record t { scope = record (t.scope) { include_hosts = normalized } })

  unfoldable pub narrow_exclude : List Text → TargetPolicy F → Step
  narrow_exclude hosts t = elim (is_empty hosts) [
    | true ↦ ok t
    | false ↦ normalize_host_set (text "child exclude_hosts") hosts >>= λ exclusions. ok (record t {
      scope = record (t.scope) { exclude_hosts = set_extend t.scope.exclude_hosts exclusions };
    })
  ]

  unfoldable pub narrow_schemes : Option (List Text) → TargetPolicy F → Step
  narrow_schemes none t = ok t
  narrow_schemes (some schemes) t = do
    normalized ← normalize_schemes schemes
    require_subset (text "scheme") normalized parent.allowed_schemes
    ok (record t { scope = record (t.scope) { allowed_schemes = normalized } })

  unfoldable pub narrow_methods : Option (List Text) → TargetPolicy F → Step
  narrow_methods none t = ok t
  narrow_methods (some methods) t = do
    normalized ← normalize_methods methods
    require_subset (text "HTTP method") normalized parent.allowed_methods
    ok (record t { scope = record (t.scope) { allowed_methods = normalized } })

  unfoldable pub narrow_subdomains : Option Bool → TargetPolicy F → Step
  narrow_subdomains none t = ok t
  narrow_subdomains (some allow) t = do
    fail_if (allow && not parent.inner.scope.allow_subdomains) (broadening enables_subdomains)
    ok (record t { scope = record (t.scope) { allow_subdomains = allow } })

  unfoldable pub narrow_active_testing : Option Bool → TargetPolicy F → Step
  narrow_active_testing none t = ok t
  narrow_active_testing (some active) t = do
    fail_if (active && not parent.inner.automation.active_testing)
        (broadening enables_active_testing)
    ok (record t { automation = record (t.automation) { active_testing = active } })

  unfoldable pub narrow_callbacks : Option Bool → TargetPolicy F → Step
  narrow_callbacks none t = ok t
  narrow_callbacks (some callbacks) t = do
    fail_if (callbacks && not parent.inner.automation.oob_callbacks) (broadening enables_callbacks)
    ok (record t { automation = record (t.automation) { oob_callbacks = callbacks } })

  unfoldable pub narrow_rate : Option F → TargetPolicy F → Step
  narrow_rate none t = ok t
  narrow_rate (some value) t = do
    require_finite_positive f (text "max_requests_per_second") value
    fail_if (lt parent.inner.automation.max_requests_per_second value) (broadening exceeds_rate)
    ok (record t { automation = record (t.automation) { max_requests_per_second = value } })

  unfoldable pub narrow_concurrency : Option ℕ → TargetPolicy F → Step
  narrow_concurrency none t = ok t
  narrow_concurrency (some value) t = do
    fail_if (value == 0) (invalid child_zero_concurrency)
    fail_if (ltb parent.inner.automation.max_concurrency value) (broadening exceeds_concurrency)
    ok (record t { automation = record (t.automation) { max_concurrency = value } })

  unfoldable pub narrow_total : Option ℕ → TargetPolicy F → Step
  narrow_total none t = ok t
  narrow_total (some value) t = do
    fail_if (value == 0) (invalid child_zero_total)
    fail_if (ltb parent.inner.automation.max_total_requests value) (broadening exceeds_total)
    ok (record t { automation = record (t.automation) { max_total_requests = value } })

  unfoldable pub narrow_expiry : ℕ → Option ℕ → TargetPolicy F → Step
  narrow_expiry now none t = ok t
  narrow_expiry now (some expires_at) t = do
    fail_if (leb expires_at now) (invalid child_expired)
    fail_if (ltb parent.inner.authorization.expires_at expires_at) (broadening outlives_parent)
    ok (record t { authorization = record (t.authorization) { expires_at = expires_at } })

  -- What `narrow` hands to `compile`.
  unfoldable pub narrowed_policy : ChildPolicy F → ℕ → Step
  narrowed_policy child now = do
    scoped ← narrow_include child.include_hosts parent.inner
    scoped ← narrow_exclude child.exclude_hosts scoped
    scoped ← narrow_schemes child.allowed_schemes scoped
    scoped ← narrow_methods child.allowed_methods scoped
    scoped ← narrow_subdomains child.allow_subdomains scoped
    limited ← narrow_active_testing child.active_testing scoped
    limited ← narrow_callbacks child.oob_callbacks limited
    limited ← narrow_rate child.max_requests_per_second limited
    limited ← narrow_concurrency child.max_concurrency limited
    limited ← narrow_total child.max_total_requests limited
    narrow_expiry now child.expires_at limited

  -- `CompiledPolicy::narrow`
  unfoldable pub narrow : ChildPolicy F → ℕ → Result PolicyError (CompiledPolicy F)
  narrow child now = narrowed_policy child now >>= λ narrowed. compile f narrowed now
