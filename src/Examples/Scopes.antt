-- ===== src/Examples/Scopes.antt =====
-- crates/nxb-policy: runs on a policy and its child.
use bound_seal.Common.{◌≡◌, refl, true, false, any, ltb, ◌≤◌, ◌<◌, ok, arith}
use bound_seal.Std.Text.{Text, text}
use bound_seal.Std.Text
use bound_seal.Policy.Compile
use bound_seal.Policy.Compile.{compile, allows_request}
use bound_seal.Policy.Hosts
use bound_seal.Policy.Narrow
use bound_seal.Policy.Narrow.{narrow}
use bound_seal.Std.Collections
use bound_seal.Examples.Values.{fixed, urls, target, compiled, child, narrowed}
use bound_seal.Std.Float.{IsIrreflexive}
use bound_seal.Std.Collections.{contains}
use bound_seal.Std.Order.{list_ord, nat_ord}
use bound_seal.Policy.Narrowing.{allows_request-narrow, limits-narrow}
use bound_seal.Policy.Compiled.{IsCurrent, compile-IsCurrent}

compiled_once : compile fixed target 100 ≡ ok compiled
unfolding compile Compile.validate_top_level Compile.require_finite_positive
    Hosts.is_lower_hex_sha256 Text.trim text Hosts.normalize_host_set Hosts.normalize_schemes
    Hosts.normalize_methods Hosts.collect_set Hosts.try_map Hosts.normalize_dns_host
    Hosts.unusable_host Hosts.check_labels Hosts.normalize_scheme Hosts.normalize_method
    Hosts.allowed_method_names Collections.contains Collections.set_insert Collections.set_extend
    Text.trim_end_matches Text.split Text.ends_with Text.contains_text
compiled_once = refl

narrowed_once : narrow fixed compiled child 150 ≡ ok narrowed
unfolding narrow compile Narrow.narrowed_policy Narrow.narrow_include Narrow.narrow_exclude
    Narrow.narrow_schemes Narrow.narrow_methods Narrow.narrow_subdomains
    Narrow.narrow_active_testing Narrow.narrow_callbacks Narrow.narrow_rate
    Narrow.narrow_concurrency Narrow.narrow_total Narrow.narrow_expiry Compile.allows_host
    Hosts.matches_host_set Hosts.require_subset Compile.validate_top_level
    Compile.require_finite_positive Hosts.is_lower_hex_sha256 Text.trim text
    Hosts.normalize_host_set Hosts.normalize_schemes Hosts.normalize_methods Hosts.collect_set
    Hosts.try_map Hosts.normalize_dns_host Hosts.unusable_host Hosts.check_labels
    Hosts.normalize_scheme Hosts.normalize_method Hosts.allowed_method_names Collections.contains
    Collections.set_insert Collections.set_extend Text.trim_end_matches Text.split Text.ends_with
    Text.contains_text
narrowed_once = refl

fixed-IsIrreflexive : IsIrreflexive fixed
fixed-IsIrreflexive x = ground arith

api_allowed :
    allows_request urls narrowed (text "https", text "api.example.com") (text "get") ≡ true
unfolding allows_request Compile.allows_host Hosts.matches_host_set Collections.contains text
    Text.trim Text.trim_end_matches
api_allowed = refl

allows_request-narrow_example :
    allows_request urls compiled (text "https", text "api.example.com") (text "get") ≡ true
allows_request-narrow_example =
    allows_request-narrow fixed urls fixed-IsIrreflexive target compiled narrowed child 100 150
      compiled_once narrowed_once (text "https", text "api.example.com") (text "get") api_allowed

limits-narrow_example :
    (true ≡ true → true ≡ true)
    × (false ≡ true → false ≡ true)
    × (ltb 2000 1000 ≡ false)
    × (2 ≤ 4)
    × (10 ≤ 10)
    × (400 ≤ 500)
    × (150 < 400)
limits-narrow_example =
    limits-narrow fixed fixed-IsIrreflexive compiled narrowed child 150 narrowed_once

compile-IsCurrent_example :
    IsCurrent fixed target 100
    × (compiled.inner ≡ target)
    × (any (λ host. contains host compiled.exclude_hosts) compiled.include_hosts ≡ false)
compile-IsCurrent_example = compile-IsCurrent fixed target 100 compiled compiled_once
