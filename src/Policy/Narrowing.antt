-- ===== src/Policy/Narrowing.antt =====
-- crates/nxb-policy/src/lib.rs: a narrowed policy permits no more than its parent.
use bound_seal.Common.{
  ℕ, ◌≡◌, ◌≤◌, ◌<◌, refl, sym, ◌∙◌, ap, subst, Bool, true, false, inl, inr, List, ok, >>=-eq-ok,
  arith, Bool-cases, Option-cases,
}
use bound_seal.Std.Text.{Text, text, to_ascii_uppercase}
use bound_seal.Std.Order.{list_ord, nat_ord}
use bound_seal.Std.Float.{Float64, IsIrreflexive}
use bound_seal.External.{UrlLib}
use bound_seal.Policy.Types.{TargetPolicy, ChildPolicy, CompiledPolicy}
use bound_seal.Policy.Hosts.{
  host_form, normalize_dns_host, normalize_host_set, matches_host, matches_host_set,
}
use bound_seal.Policy.Subdomains.{
  IsSubdomain, matches_host_cases, matches_host-subdomain, IsSubdomain-trans,
}
use bound_seal.Policy.HostForms.{normalize-IsNormalized, host_form-normalized, normalize-normalized}
use bound_seal.Policy.HostSets.{In, collect_set-from, collect_set-onto, matching_host, matches-set}
use bound_seal.Policy.ValueForms.{schemes-In, methods-In}
use bound_seal.Policy.Compile.{allows_host, allows_request, compile}
use bound_seal.Policy.Compiled.{IsCompiled, compile-IsCompiled, valid-IsCurrent}
use bound_seal.Policy.Narrow.{narrow, narrowed_policy}
use bound_seal.Policy.Within.{Within, narrowed-Within}

-- The hosts of a normalised set are their own normal forms, and are in it after normalising again.
host_form-In :
    (field : Text) (hosts s : List Text) (h : Text)
    → normalize_host_set field hosts ≡ ok s
    → In h s
    → host_form h ≡ h
unfolding normalize_host_set
host_form-In field hosts s h e i =
    let (g, _, fg) = collect_set-from (normalize_dns_host field) hosts h e i in
    host_form-normalized g h (normalize-IsNormalized field g fg)

hosts-In :
    (field again : Text) (hosts s t : List Text) (h : Text)
    → normalize_host_set field hosts ≡ ok s
    → normalize_host_set again s ≡ ok t
    → In h t
    → In h s
unfolding normalize_host_set
hosts-In field again hosts s t h e d i =
    let (g, j, fg) = collect_set-from (normalize_dns_host again) s h d i in
    let (k, _, fk) = collect_set-from (normalize_dns_host field) hosts g e j in
    let fixed = normalize-normalized again k g (normalize-IsNormalized field k fk) in
    let same_host : g ≡ h = cc in subst (λ z. In z s) same_host j

-- Normalising more hosts keeps what the fewer gave.
hosts_mono :
    (field again : Text) (less more s t : List Text) (h : Text)
    → ((x : Text) → In x less → In x more)
    → normalize_host_set field less ≡ ok s
    → normalize_host_set again more ≡ ok t
    → In h s
    → In h t
unfolding normalize_host_set
hosts_mono field again less more s t h sub e d i =
    let (g, j, fg) = collect_set-from (normalize_dns_host field) less h e i in
    let (k, l, fk) = collect_set-onto (normalize_dns_host again) more g d (sub g j) in
    let same_host : k ≡ h =
      (normalize-IsNormalized again g fk).form ∙ sym (normalize-IsNormalized field g fg).form in
    subst (λ z. In z t) same_host l

allows-parts :
    {R : Type 0} (p : CompiledPolicy R) (host : Text)
    → allows_host p host ≡ true
    → (matches_host_set (host_form host) p.exclude_hosts true ≡ false)
      × (matches_host_set (host_form host) p.include_hosts p.inner.scope.allow_subdomains ≡ true)
unfolding allows_host
allows-parts p host h = ground arith

-- A candidate below a permitted host is below an included host of the parent.
below_permitted :
    {R : Type 0} (p : CompiledPolicy R) (c h : Text) (allow : Bool)
    → (allow ≡ true → p.inner.scope.allow_subdomains ≡ true)
    → host_form h ≡ h
    → allows_host p h ≡ true
    → matches_host c allow h ≡ true
    → matches_host_set c p.include_hosts p.inner.scope.allow_subdomains ≡ true
below_permitted p c h allow sub form permitted m =
    let included = rw form at (allows-parts p h permitted).1 in
    elim (matches_host_cases c h allow m) [
      | inl e ↦ rw e included
      | inr (on, below) ↦
          let (g, i, n) = matching_host h p.include_hosts p.inner.scope.allow_subdomains included in
          let below_g : IsSubdomain c g =
            elim (matches_host_cases h g p.inner.scope.allow_subdomains n) [
              | inl e ↦ subst (IsSubdomain c) e below
              | inr (_, deeper) ↦ IsSubdomain-trans c h g below deeper
            ] in
          rw (sub on) (matches-set c p.include_hosts true g i (matches_host-subdomain c g below_g))
    ]

matches_host_mono :
    (c h : Text) (allow more : Bool)
    → (allow ≡ true → more ≡ true)
    → matches_host c allow h ≡ true
    → matches_host c more h ≡ true
matches_host_mono c h true more sub m = rw (sub refl) m
matches_host_mono c h false more sub m = ground arith

module _ (f : Float64) (p q : CompiledPolicy f.F) (t t0 : TargetPolicy f.F) (before now : ℕ)
    (vp : IsCompiled f t0 before p) (vq : IsCompiled f t now q) (w : Within f p t) where
  included :
      (c : Text)
      → matches_host_set c q.include_hosts q.inner.scope.allow_subdomains ≡ true
      → matches_host_set c p.include_hosts p.inner.scope.allow_subdomains ≡ true
  included c m =
      let (h, i, n) = matching_host c q.include_hosts q.inner.scope.allow_subdomains m in
      let sub : q.inner.scope.allow_subdomains ≡ true → p.inner.scope.allow_subdomains ≡ true =
        λ on.
          w.subdomains
            (ap (λ (x : TargetPolicy f.F). x.scope.allow_subdomains) (sym vq.inner) ∙ on) in
      elim w.include [
        | inl e ↦
            let same_set : q.include_hosts ≡ p.include_hosts =
              cc (vq.include, vp.include, vp.inner, e) in
            matches-set c p.include_hosts p.inner.scope.allow_subdomains h (subst (In h) same_set i)
              (matches_host_mono c h _ _ sub n)
        | inr (field, hosts, made, permitted) ↦
            let j =
              hosts-In field (text "include_hosts") hosts t.scope.include_hosts q.include_hosts h
                made vq.include i in
            below_permitted p c h q.inner.scope.allow_subdomains sub
              (host_form-In field hosts t.scope.include_hosts h made j) (permitted h j) n
      ]

  excluded :
      (c : Text)
      → matches_host_set c q.exclude_hosts true ≡ false
      → matches_host_set c p.exclude_hosts true ≡ false
  excluded c m = elim (Bool-cases (matches_host_set c p.exclude_hosts true)) [
    | inl hit ↦
        let (h, i, n) = matching_host c p.exclude_hosts true hit in
        let kept =
          hosts_mono (text "exclude_hosts") (text "exclude_hosts") t0.scope.exclude_hosts
            t.scope.exclude_hosts p.exclude_hosts q.exclude_hosts h
            (subst
              (λ (x : TargetPolicy f.F).
                (y : Text) → In y x.scope.exclude_hosts → In y t.scope.exclude_hosts)
              vp.inner w.exclude)
            vp.exclude vq.exclude i in
        let hit_q = matches-set c q.exclude_hosts true h kept n in cc
    | inr miss ↦ miss
  ]

  host_permitted : (host : Text) → allows_host q host ≡ true → allows_host p host ≡ true
  unfolding allows_host
  host_permitted host h =
      let (out, inside) = allows-parts q host h in
      rw (excluded (host_form host) out) (included (host_form host) inside)

  schemes_permitted : (x : Text) → In x q.allowed_schemes → In x p.allowed_schemes
  schemes_permitted x =
      schemes-In p.inner.scope.allowed_schemes p.allowed_schemes t.scope.allowed_schemes
        q.allowed_schemes x (cc (vp.schemes, vp.inner)) w.schemes vq.schemes

  methods_permitted : (x : Text) → In x q.allowed_methods → In x p.allowed_methods
  methods_permitted x =
      methods-In p.inner.scope.allowed_methods p.allowed_methods t.scope.allowed_methods
        q.allowed_methods x (cc (vp.methods, vp.inner)) w.methods vq.methods

  request_permitted :
      (u : UrlLib) (url : u.Url) (method : Text)
      → allows_request u q url method ≡ true
      → allows_request u p url method ≡ true
  unfolding allows_request
  request_permitted u url method h = elim (Option-cases (u.host_str url)) [
    | inl e ↦ ground arith
    | inr (host, e) ↦ ground (
      arith,
      schemes_permitted (u.scheme url),
      methods_permitted (to_ascii_uppercase method),
      host_permitted host,
    )
  ]

-- Narrowing a compiled policy never widens its scope: every request that the narrowed policy
-- allows, its parent allows. Nothing is assumed of the URL library, and of `f64` only that `x < x`
-- is false.
pub allows_request-narrow :
    (f : Float64) (u : UrlLib)
    → IsIrreflexive f
    → (t : TargetPolicy f.F) (p q : CompiledPolicy f.F) (c : ChildPolicy f.F) (before now : ℕ)
    → compile f t before ≡ ok p
    → narrow f p c now ≡ ok q
    → (url : u.Url) (method : Text) → allows_request u q url method ≡ true
    → allows_request u p url method ≡ true
unfolding narrow
allows_request-narrow f u irreflexive t p q c before now made narrowed url method h =
    let (n, within, made_q) = >>=-eq-ok (narrowed_policy f p c now) _ narrowed in
    request_permitted f p q n t before now (compile-IsCompiled f t before made)
      (compile-IsCompiled f n now made_q) (narrowed-Within f p c now irreflexive within) u url
      method h

-- Nor does narrowing raise a limit of the parent: no feature is enabled, the rate, the concurrency
-- and the request total do not grow, the authorization ends no later, and it has not ended at the
-- time of the call.
pub limits-narrow :
    (f : Float64)
    → IsIrreflexive f
    → (p q : CompiledPolicy f.F) (c : ChildPolicy f.F) (now : ℕ) → narrow f p c now ≡ ok q
    → (q.inner.automation.active_testing ≡ true → p.inner.automation.active_testing ≡ true)
      × (q.inner.automation.oob_callbacks ≡ true → p.inner.automation.oob_callbacks ≡ true)
      × (f.lt p.inner.automation.max_requests_per_second q.inner.automation.max_requests_per_second
          ≡ false)
      × (q.inner.automation.max_concurrency ≤ p.inner.automation.max_concurrency)
      × (q.inner.automation.max_total_requests ≤ p.inner.automation.max_total_requests)
      × (q.inner.authorization.expires_at ≤ p.inner.authorization.expires_at)
      × (now < q.inner.authorization.expires_at)
unfolding narrow
limits-narrow f irreflexive p q c now narrowed =
    let (n, within, made) = >>=-eq-ok (narrowed_policy f p c now) _ narrowed in
    let v = compile-IsCompiled f n now made in
    let w = narrowed-Within f p c now irreflexive within in
    let current = valid-IsCurrent f n now v.valid in
    rw v.inner (w.active, w.callbacks, w.rate, w.concurrency, w.total, w.expiry, current.unexpired)
