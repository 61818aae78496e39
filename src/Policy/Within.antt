-- ===== src/Policy/Within.antt =====
-- Every part of `narrow` keeps the policy under construction within its parent.
use bound_seal.Common.{
  ℕ, ◌≡◌, ◌≤◌, refl, subst, Bool, true, false, not, ◌&&◌, ◌⊎◌, inl, inr, Option, none, some, List,
  [], ◌∷◌, ltb, leb, ◌==◌, Result, ok, fail_if-then, >>=-eq-ok, arith, is_empty, find,
}
use bound_seal.Std.Text.{Text}
use bound_seal.Std.Order.{list_ord, nat_ord}
use bound_seal.Std.Collections.{set_extend}
use bound_seal.Std.Float.{Float64, IsIrreflexive}
use bound_seal.Policy.Types.{TargetPolicy, ChildPolicy, CompiledPolicy, PolicyError}
use bound_seal.Policy.Hosts.{
  normalize_host_set, normalize_schemes, normalize_methods, require_subset,
}
use bound_seal.Policy.HostSets.{In, In-extend, find-none, require_subset-In}
use bound_seal.Policy.Compile.{allows_host, require_finite_positive}
use bound_seal.Policy.Narrow.{
  narrow_include, narrow_exclude, narrow_schemes, narrow_methods, narrow_subdomains,
  narrow_active_testing, narrow_callbacks, narrow_rate, narrow_concurrency, narrow_total,
  narrow_expiry, narrowed_policy, refuse_host,
}

-- The values are the parent's as written, or are normalised ones among its compiled values.
abbrev pub ValuesWithin :
    (List Text → Result PolicyError (List Text)) → List Text → List Text → List Text → Type 0
ValuesWithin normalize written compiled s =
    (s ≡ written) ⊎ ((c : List Text) × (normalize c ≡ ok s) × ((x : Text) → In x s → In x compiled))

module _ (f : Float64) (p : CompiledPolicy f.F) where
  open f use {F, lt}

  -- The included hosts are the parent's, or are normalised and permitted by it.
  abbrev pub HostsWithin : List Text → Type 0
  HostsWithin s =
      (s ≡ p.inner.scope.include_hosts)
      ⊎ ((field : Text) × (hosts : List Text) × (normalize_host_set field hosts ≡ ok s)
          × ((h : Text) → In h s → allows_host p h ≡ true))

  pub record Within (t : TargetPolicy F) : Type 0 where
    pub include : HostsWithin t.scope.include_hosts
    pub exclude : (h : Text) → In h p.inner.scope.exclude_hosts → In h t.scope.exclude_hosts
    pub schemes :
        ValuesWithin normalize_schemes p.inner.scope.allowed_schemes p.allowed_schemes
          t.scope.allowed_schemes
    pub methods :
        ValuesWithin normalize_methods p.inner.scope.allowed_methods p.allowed_methods
          t.scope.allowed_methods
    pub subdomains : t.scope.allow_subdomains ≡ true → p.inner.scope.allow_subdomains ≡ true
    pub active : t.automation.active_testing ≡ true → p.inner.automation.active_testing ≡ true
    pub callbacks : t.automation.oob_callbacks ≡ true → p.inner.automation.oob_callbacks ≡ true
    pub rate :
        lt p.inner.automation.max_requests_per_second t.automation.max_requests_per_second ≡ false
    pub concurrency : t.automation.max_concurrency ≤ p.inner.automation.max_concurrency
    pub total : t.automation.max_total_requests ≤ p.inner.automation.max_total_requests
    pub expiry : t.authorization.expires_at ≤ p.inner.authorization.expires_at

  inner-Within : IsIrreflexive f → Within p.inner
  inner-Within irreflexive = record {
    include = inl refl;
    exclude = λ h i. i;
    schemes = inl refl;
    methods = inl refl;
    subdomains = λ h. h;
    active = λ h. h;
    callbacks = λ h. h;
    rate = irreflexive _;
    concurrency = omega arith;
    total = omega arith;
    expiry = omega arith;
  }

  answered :
      {t t' : TargetPolicy F}
      → ◌≡◌ {A = Result PolicyError (TargetPolicy F)} (ok t) (ok t')
      → Within t
      → Within t'
  answered {t} {t'} e = let same_policy : t ≡ t' = cc in subst Within same_policy

  refuse_host-none : (o : Option Text) {u : Unit {0}} → refuse_host o ≡ ok u → o ≡ none
  refuse_host-none none e = refl
  refuse_host-none (some h) e = cc

  include-Within :
      (c : Option (List Text)) (t : TargetPolicy F) {t' : TargetPolicy F}
      → Within t
      → narrow_include f p c t ≡ ok t'
      → Within t'
  unfolding narrow_include
  include-Within none t w e = answered e w
  include-Within (some hosts) t w e =
      let (_, e) = fail_if-then (is_empty hosts) _ _ e in
      let (s, normalized, e) = >>=-eq-ok (normalize_host_set _ hosts) _ e in
      let (_, found, e) = >>=-eq-ok (refuse_host (find (λ host. not (allows_host p host)) s)) _ e in
      let within : HostsWithin s =
        inr (_, hosts, normalized, λ h. find-none (allows_host p) s h (refuse_host-none _ found)) in
      answered e (assumption within)

  exclude-Within :
      (c : List Text) (t : TargetPolicy F) {t' : TargetPolicy F}
      → Within t
      → narrow_exclude f p c t ≡ ok t'
      → Within t'
  unfolding narrow_exclude
  exclude-Within [] t w e = answered e w
  exclude-Within (x ∷ hosts) t w e =
      let (s, normalized, e) = >>=-eq-ok (normalize_host_set _ (x ∷ hosts)) _ e in
      let more : (h : Text)
          → In h p.inner.scope.exclude_hosts
          → In h (set_extend t.scope.exclude_hosts s) =
        λ h i. In-extend h t.scope.exclude_hosts s (inl (w.exclude h i)) in
      answered e (assumption more)

  schemes-Within :
      (c : Option (List Text)) (t : TargetPolicy F) {t' : TargetPolicy F}
      → Within t
      → narrow_schemes f p c t ≡ ok t'
      → Within t'
  unfolding narrow_schemes
  schemes-Within none t w e = answered e w
  schemes-Within (some c) t w e =
      let (s, normalized, e) = >>=-eq-ok (normalize_schemes c) _ e in
      let (_, subset, e) = >>=-eq-ok (require_subset _ s p.allowed_schemes) _ e in
      let within : ValuesWithin normalize_schemes p.inner.scope.allowed_schemes p.allowed_schemes
          s =
        inr (c, normalized, λ x. require_subset-In _ s p.allowed_schemes x subset) in
      answered e (assumption within)

  methods-Within :
      (c : Option (List Text)) (t : TargetPolicy F) {t' : TargetPolicy F}
      → Within t
      → narrow_methods f p c t ≡ ok t'
      → Within t'
  unfolding narrow_methods
  methods-Within none t w e = answered e w
  methods-Within (some c) t w e =
      let (s, normalized, e) = >>=-eq-ok (normalize_methods c) _ e in
      let (_, subset, e) = >>=-eq-ok (require_subset _ s p.allowed_methods) _ e in
      let within : ValuesWithin normalize_methods p.inner.scope.allowed_methods p.allowed_methods
          s =
        inr (c, normalized, λ x. require_subset-In _ s p.allowed_methods x subset) in
      answered e (assumption within)

  subdomains-Within :
      (c : Option Bool) (t : TargetPolicy F) {t' : TargetPolicy F}
      → Within t
      → narrow_subdomains f p c t ≡ ok t'
      → Within t'
  unfolding narrow_subdomains
  subdomains-Within none t w e = answered e w
  subdomains-Within (some c) t w e =
      let (kept, e) = fail_if-then (c && not p.inner.scope.allow_subdomains) _ _ e in
      let allowed : c ≡ true → p.inner.scope.allow_subdomains ≡ true = λ h. ground arith in
      answered e (assumption allowed)

  active-Within :
      (c : Option Bool) (t : TargetPolicy F) {t' : TargetPolicy F}
      → Within t
      → narrow_active_testing f p c t ≡ ok t'
      → Within t'
  unfolding narrow_active_testing
  active-Within none t w e = answered e w
  active-Within (some c) t w e =
      let (kept, e) = fail_if-then (c && not p.inner.automation.active_testing) _ _ e in
      let allowed : c ≡ true → p.inner.automation.active_testing ≡ true = λ h. ground arith in
      answered e (assumption allowed)

  callbacks-Within :
      (c : Option Bool) (t : TargetPolicy F) {t' : TargetPolicy F}
      → Within t
      → narrow_callbacks f p c t ≡ ok t'
      → Within t'
  unfolding narrow_callbacks
  callbacks-Within none t w e = answered e w
  callbacks-Within (some c) t w e =
      let (kept, e) = fail_if-then (c && not p.inner.automation.oob_callbacks) _ _ e in
      let allowed : c ≡ true → p.inner.automation.oob_callbacks ≡ true = λ h. ground arith in
      answered e (assumption allowed)

  rate-Within :
      (c : Option F) (t : TargetPolicy F) {t' : TargetPolicy F}
      → Within t
      → narrow_rate f p c t ≡ ok t'
      → Within t'
  unfolding narrow_rate
  rate-Within none t w e = answered e w
  rate-Within (some c) t w e =
      let (_, _, e) = >>=-eq-ok (require_finite_positive f _ c) _ e in
      let (kept, e) = fail_if-then (lt p.inner.automation.max_requests_per_second c) _ _ e in
      answered e (assumption kept)

  concurrency-Within :
      (c : Option ℕ) (t : TargetPolicy F) {t' : TargetPolicy F}
      → Within t
      → narrow_concurrency f p c t ≡ ok t'
      → Within t'
  unfolding narrow_concurrency
  concurrency-Within none t w e = answered e w
  concurrency-Within (some c) t w e =
      let (_, e) = fail_if-then (c == 0) _ _ e in
      let (kept, e) = fail_if-then (ltb p.inner.automation.max_concurrency c) _ _ e in
      let below : c ≤ p.inner.automation.max_concurrency = ground arith in
      answered e (assumption below)

  total-Within :
      (c : Option ℕ) (t : TargetPolicy F) {t' : TargetPolicy F}
      → Within t
      → narrow_total f p c t ≡ ok t'
      → Within t'
  unfolding narrow_total
  total-Within none t w e = answered e w
  total-Within (some c) t w e =
      let (_, e) = fail_if-then (c == 0) _ _ e in
      let (kept, e) = fail_if-then (ltb p.inner.automation.max_total_requests c) _ _ e in
      let below : c ≤ p.inner.automation.max_total_requests = ground arith in
      answered e (assumption below)

  expiry-Within :
      (now : ℕ) (c : Option ℕ) (t : TargetPolicy F) {t' : TargetPolicy F}
      → Within t
      → narrow_expiry f p now c t ≡ ok t'
      → Within t'
  unfolding narrow_expiry
  expiry-Within now none t w e = answered e w
  expiry-Within now (some c) t w e =
      let (_, e) = fail_if-then (leb c now) _ _ e in
      let (kept, e) = fail_if-then (ltb p.inner.authorization.expires_at c) _ _ e in
      let below : c ≤ p.inner.authorization.expires_at = ground arith in
      answered e (assumption below)

  -- So what `narrow` hands to `compile` is within the parent.
  pub narrowed-Within :
      (c : ChildPolicy F) (now : ℕ) {t : TargetPolicy F}
      → IsIrreflexive f
      → narrowed_policy f p c now ≡ ok t
      → Within t
  unfolding narrowed_policy
  narrowed-Within c now irreflexive e =
      let w = inner-Within irreflexive in
      let (t0, step, e) = >>=-eq-ok (narrow_include f p c.include_hosts p.inner) _ e in
      let w = include-Within c.include_hosts p.inner w step in
      let (t1, step, e) = >>=-eq-ok (narrow_exclude f p c.exclude_hosts t0) _ e in
      let w = exclude-Within c.exclude_hosts t0 w step in
      let (t2, step, e) = >>=-eq-ok (narrow_schemes f p c.allowed_schemes t1) _ e in
      let w = schemes-Within c.allowed_schemes t1 w step in
      let (t3, step, e) = >>=-eq-ok (narrow_methods f p c.allowed_methods t2) _ e in
      let w = methods-Within c.allowed_methods t2 w step in
      let (t4, step, e) = >>=-eq-ok (narrow_subdomains f p c.allow_subdomains t3) _ e in
      let w = subdomains-Within c.allow_subdomains t3 w step in
      let (t5, step, e) = >>=-eq-ok (narrow_active_testing f p c.active_testing t4) _ e in
      let w = active-Within c.active_testing t4 w step in
      let (t6, step, e) = >>=-eq-ok (narrow_callbacks f p c.oob_callbacks t5) _ e in
      let w = callbacks-Within c.oob_callbacks t5 w step in
      let (t7, step, e) = >>=-eq-ok (narrow_rate f p c.max_requests_per_second t6) _ e in
      let w = rate-Within c.max_requests_per_second t6 w step in
      let (t8, step, e) = >>=-eq-ok (narrow_concurrency f p c.max_concurrency t7) _ e in
      let w = concurrency-Within c.max_concurrency t7 w step in
      let (t9, step, e) = >>=-eq-ok (narrow_total f p c.max_total_requests t8) _ e in
      let w = total-Within c.max_total_requests t8 w step in expiry-Within now c.expires_at t9 w e
