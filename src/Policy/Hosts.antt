-- ===== src/Policy/Hosts.antt =====
-- crates/nxb-policy/src/lib.rs: the checks and the normal forms of hosts, schemes and methods.
use bound_seal.Common.{
  ℕ, ◌-◌, Bool, not, ◌&&◌, ◌||◌, none, some, List, [], ◌∷◌, ltb, ◌==◌, length, is_empty, all, any,
  find, get_or, Result, ok, err, ◌>>=◌, ◌>>◌, fail_if,
}
use bound_seal.Std.Text.{
  Text, text, eq_text, is_ascii_digit, is_ascii_alphanumeric, between, to_ascii_lowercase,
  to_ascii_uppercase, trim, trim_end_matches, split, starts_with, ends_with, contains_byte,
  contains_text, ends_with_text,
}
use bound_seal.Std.Order.{list_ord, nat_ord}
use bound_seal.Std.Collections.{contains, set_extend}
use bound_seal.Policy.Types.{
  invalid_dns_host, invalid_dns_label, no_schemes, unsupported_scheme, no_methods,
  unsupported_method, PolicyError, invalid, broadening, value_not_permitted,
}

-- `host.trim().trim_end_matches('.').to_ascii_lowercase()`
abbrev pub host_form : Text → Text
host_form host = to_ascii_lowercase (trim_end_matches b'.' (trim host))

unfoldable pub unusable_host : Text → Bool
unusable_host normalized =
    is_empty normalized
    || ltb 253 (length normalized)
    || contains_text (text "://") normalized
    || contains_byte b'/' normalized
    || contains_byte b'\\' normalized
    || contains_byte b'*' normalized
    || contains_byte b':' normalized

abbrev pub is_label_byte : ℕ → Bool
is_label_byte byte = is_ascii_alphanumeric byte || byte == b'-'

abbrev pub bad_label : Text → Bool
bad_label label =
    is_empty label
    || ltb 63 (length label)
    || starts_with b'-' label
    || ends_with b'-' label
    || not (all is_label_byte label)

-- the loop over `normalized.split('.')`
unfoldable pub check_labels : PolicyError → List Text → Result PolicyError (Unit {0})
check_labels e [] = ok tt
check_labels e (label ∷ labels) = fail_if (bad_label label) e >> check_labels e labels

unfoldable pub normalize_dns_host : Text → Text → Result PolicyError Text
normalize_dns_host field_name host = do
  let normalized = host_form host
  fail_if (unusable_host normalized) (invalid (invalid_dns_host field_name host))
  check_labels (invalid (invalid_dns_label field_name host)) (split b'.' normalized)
  ok normalized

-- `iter().map(f).collect::<Result<BTreeSet<_>, _>>()`: the first error, or the set of the values.
unfoldable pub try_map :
    (Text → Result PolicyError Text) → List Text → Result PolicyError (List Text)
try_map f [] = ok []
try_map f (x ∷ xs) = f x >>= λ y. try_map f xs >>= λ ys. ok (y ∷ ys)

unfoldable pub collect_set :
    (Text → Result PolicyError Text) → List Text → Result PolicyError (List Text)
collect_set f xs = try_map f xs >>= λ ys. ok (set_extend [] ys)

unfoldable pub normalize_host_set : Text → List Text → Result PolicyError (List Text)
normalize_host_set field_name hosts = collect_set (normalize_dns_host field_name) hosts

unfoldable pub normalize_scheme : Text → Result PolicyError Text
normalize_scheme scheme = do
  let normalized = to_ascii_lowercase (trim scheme)
  fail_if (not (eq_text normalized (text "http")) && not (eq_text normalized (text "https")))
      (invalid (unsupported_scheme scheme))
  ok normalized

unfoldable pub normalize_schemes : List Text → Result PolicyError (List Text)
normalize_schemes schemes =
    fail_if (is_empty schemes) (invalid no_schemes) >> collect_set normalize_scheme schemes

unfoldable pub allowed_method_names : List Text
allowed_method_names =
    text "GET"
    ∷ text "HEAD"
    ∷ text "OPTIONS"
    ∷ text "POST"
    ∷ text "PUT"
    ∷ text "PATCH"
    ∷ text "DELETE"
    ∷ []

unfoldable pub normalize_method : Text → Result PolicyError Text
normalize_method method = do
  let normalized = to_ascii_uppercase (trim method)
  fail_if (not (any (λ name. eq_text name normalized) allowed_method_names))
      (invalid (unsupported_method method))
  ok normalized

unfoldable pub normalize_methods : List Text → Result PolicyError (List Text)
normalize_methods methods =
    fail_if (is_empty methods) (invalid no_methods) >> collect_set normalize_method methods

-- One host of `matches_host_set`.
abbrev pub matches_host : Text → Bool → Text → Bool
matches_host candidate allow_subdomains host =
    eq_text candidate host
    || (allow_subdomains
        && ltb (length host) (length candidate)
        && ends_with_text host candidate
        && get_or candidate (length candidate - length host - 1) 0 == b'.')

unfoldable pub matches_host_set : Text → List Text → Bool → Bool
matches_host_set candidate hosts allow_subdomains =
    any (matches_host candidate allow_subdomains) hosts

unfoldable pub require_subset : Text → List Text → List Text → Result PolicyError (Unit {0})
require_subset field_name child parent = elim (find (λ value. not (contains value parent)) child) [
  | some value ↦ err (broadening (value_not_permitted field_name value))
  | none ↦ ok tt
]

unfoldable pub is_lower_hex_sha256 : Text → Bool
is_lower_hex_sha256 value =
    length value == 64 && all (λ byte. is_ascii_digit byte || between b'a' b'f' byte) value
