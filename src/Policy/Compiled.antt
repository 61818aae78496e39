-- ===== src/Policy/Compiled.antt =====
-- What `TargetPolicy::compile` has done when it answers a policy.
use bound_seal.Common.{
  ℕ, ◌≡◌, ◌≤◌, ◌<◌, ◌==◌, ◌||◌, refl, subst, true, false, not, any, ok, is_empty, ltb, leb, arith,
  fail_if-then, fail_if-eq-ok, >>=-eq-ok,
}
use bound_seal.Std.Text.{text, trim}
use bound_seal.Std.Order.{list_ord, nat_ord}
use bound_seal.Std.Collections.{contains}
use bound_seal.Std.Float.{Float64}
use bound_seal.Policy.Types.{TargetPolicy, CompiledPolicy}
use bound_seal.Policy.Hosts.{
  is_lower_hex_sha256, normalize_host_set, normalize_schemes, normalize_methods,
}
use bound_seal.Policy.Compile.{compile, validate_top_level, require_finite_positive}

module _ (f : Float64) where
  open f use {F, is_finite, lt, le, literal}

  pub record IsCompiled (t : TargetPolicy F) (now : ℕ) (p : CompiledPolicy F) : Type 0 where
    pub valid : validate_top_level f t now ≡ ok tt
    pub inner : p.inner ≡ t
    pub include :
        normalize_host_set (text "include_hosts") t.scope.include_hosts ≡ ok p.include_hosts
    pub exclude :
        normalize_host_set (text "exclude_hosts") t.scope.exclude_hosts ≡ ok p.exclude_hosts
    pub schemes : normalize_schemes t.scope.allowed_schemes ≡ ok p.allowed_schemes
    pub methods : normalize_methods t.scope.allowed_methods ≡ ok p.allowed_methods
    pub disjoint : any (λ host. contains host p.exclude_hosts) p.include_hosts ≡ false

  pub compile-IsCompiled :
      (t : TargetPolicy F) (now : ℕ) {p : CompiledPolicy F}
      → compile f t now ≡ ok p
      → IsCompiled t now p
  unfolding compile
  compile-IsCompiled t now {p} e =
      let (_, valid, e) = >>=-eq-ok (validate_top_level f t now) _ e in
      let (i, include, e) = >>=-eq-ok (normalize_host_set _ t.scope.include_hosts) _ e in
      let (x, exclude, e) = >>=-eq-ok (normalize_host_set _ t.scope.exclude_hosts) _ e in
      let (s, schemes, e) = >>=-eq-ok (normalize_schemes t.scope.allowed_schemes) _ e in
      let (m, methods, e) = >>=-eq-ok (normalize_methods t.scope.allowed_methods) _ e in
      let (disjoint, e) = fail_if-then (any (λ host. contains host x) i) _ _ e in
      let made : record {
        inner = t;
        include_hosts = i;
        exclude_hosts = x;
        allowed_schemes = s;
        allowed_methods = m;
      }
          ≡ p =
        cc in
      subst (IsCompiled t now) made (record {
        valid = valid;
        inner = refl;
        include = include;
        exclude = exclude;
        schemes = schemes;
        methods = methods;
        disjoint = disjoint;
      })

  -- What the checks of `validate_top_level` establish.
  pub record IsCurrent (t : TargetPolicy F) (now : ℕ) : Type 0 where
    pub version : t.schema_version ≡ 1
    pub confirmed : t.authorization.confirmed ≡ true
    pub unexpired : now < t.authorization.expires_at
    pub bruteforce : t.automation.credential_bruteforce ≡ false
    pub destructive : t.automation.destructive_testing ≡ false
    pub finite : is_finite t.automation.max_requests_per_second ≡ true
    pub positive : le t.automation.max_requests_per_second (literal 0) ≡ false
    pub slow : lt (literal 5) t.automation.max_requests_per_second ≡ false
    pub some_concurrency : 0 < t.automation.max_concurrency
    pub few_concurrent : t.automation.max_concurrency ≤ 8
    pub some_total : 0 < t.automation.max_total_requests
    pub few_in_total : t.automation.max_total_requests ≤ 100000

  pub valid-IsCurrent :
      (t : TargetPolicy F) (now : ℕ) {v : Unit {0}}
      → validate_top_level f t now ≡ ok v
      → IsCurrent t now
  unfolding validate_top_level require_finite_positive
  valid-IsCurrent t now e =
      let (version, e) = fail_if-then (not (t.schema_version == 1)) _ _ e in
      let (_, e) =
        fail_if-then (is_empty (trim t.program.name) || is_empty (trim t.program.platform)) _ _ e in
      let (_, e) = fail_if-then (is_empty t.scope.include_hosts) _ _ e in
      let (confirmed, e) = fail_if-then (not t.authorization.confirmed) _ _ e in
      let (_, e) = fail_if-then (is_empty (trim t.authorization.researcher)) _ _ e in
      let (unexpired, e) = fail_if-then (leb t.authorization.expires_at now) _ _ e in
      let (_, e) =
        fail_if-then (not (is_lower_hex_sha256 t.authorization.policy_snapshot_sha256)) _ _ e in
      let (bruteforce, e) = fail_if-then t.automation.credential_bruteforce _ _ e in
      let (destructive, e) = fail_if-then t.automation.destructive_testing _ _ e in
      let (finite, e) =
        fail_if-then
          (not (is_finite t.automation.max_requests_per_second)
            || le t.automation.max_requests_per_second (literal 0))
          _ _ e in
      let (slow, e) = fail_if-then (lt (literal 5) t.automation.max_requests_per_second) _ _ e in
      let (concurrency, e) =
        fail_if-then (t.automation.max_concurrency == 0 || ltb 8 t.automation.max_concurrency) _ _
          e in
      let total =
        fail_if-eq-ok
          (t.automation.max_total_requests == 0 || ltb 100000 t.automation.max_total_requests) _
          e in
      record {
        version = ground arith;
        confirmed = ground arith;
        unexpired = ground arith;
        bruteforce = bruteforce;
        destructive = destructive;
        finite = ground arith;
        positive = ground arith;
        slow = slow;
        some_concurrency = ground arith;
        few_concurrent = ground arith;
        some_total = ground arith;
        few_in_total = ground arith;
      }

  -- A policy that compiles is in force at the time of the call and within every limit: schema
  -- version 1, confirmed, not expired, no brute force and no destructive testing, a finite positive
  -- rate of at most 5, from 1 to 8 requests at a time and from 1 to 100,000 in total. The compiled
  -- policy keeps it, and no host is both included and excluded.
  pub compile-IsCurrent :
      (t : TargetPolicy F) (now : ℕ) (p : CompiledPolicy F)
      → compile f t now ≡ ok p
      → IsCurrent t now
        × (p.inner ≡ t)
        × (any (λ host. contains host p.exclude_hosts) p.include_hosts ≡ false)
  compile-IsCurrent t now p e =
      let c = compile-IsCompiled t now e in (valid-IsCurrent t now c.valid, c.inner, c.disjoint)
