-- ===== src/Policy/Types.antt =====
-- crates/nxb-policy/src/lib.rs: the policy records and the errors. `R` is `f64`, a `BTreeSet` is its
-- sorted list, and a `DateTime<Utc>` is its place in the order of instants.
use bound_seal.Common.{ℕ, Bool, Option, List}
use bound_seal.Std.Text.{Text}

pub record ProgramPolicy : Type 0 where
  pub name : Text
  pub platform : Text
  pub policy_url : Option Text

pub record ScopePolicy : Type 0 where
  pub include_hosts : List Text
  pub exclude_hosts : List Text
  pub allowed_schemes : List Text
  pub allowed_methods : List Text
  pub allow_subdomains : Bool

pub record AutomationPolicy (R : Type 0) : Type 0 where
  pub active_testing : Bool
  pub credential_bruteforce : Bool
  pub destructive_testing : Bool
  pub oob_callbacks : Bool
  pub max_requests_per_second : R
  pub max_concurrency : ℕ
  pub max_total_requests : ℕ

pub record AuthorizationPolicy : Type 0 where
  pub confirmed : Bool
  pub researcher : Text
  pub policy_snapshot_sha256 : Text
  pub expires_at : ℕ

pub record TargetPolicy (R : Type 0) : Type 0 where
  pub schema_version : ℕ
  pub program : ProgramPolicy
  pub scope : ScopePolicy
  pub automation : AutomationPolicy R
  pub authorization : AuthorizationPolicy

pub record ChildPolicy (R : Type 0) : Type 0 where
  pub include_hosts : Option (List Text)
  pub exclude_hosts : List Text
  pub allowed_schemes : Option (List Text)
  pub allowed_methods : Option (List Text)
  pub allow_subdomains : Option Bool
  pub active_testing : Option Bool
  pub oob_callbacks : Option Bool
  pub max_requests_per_second : Option R
  pub max_concurrency : Option ℕ
  pub max_total_requests : Option ℕ
  pub expires_at : Option ℕ

pub record CompiledPolicy (R : Type 0) : Type 0 where
  pub inner : TargetPolicy R
  pub include_hosts : List Text
  pub exclude_hosts : List Text
  pub allowed_schemes : List Text
  pub allowed_methods : List Text

-- One constructor for each message of `PolicyError::Invalid`, with what it quotes.
pub data InvalidPolicy : Type 0 where
  unsupported_schema_version : ℕ → InvalidPolicy
  empty_program no_include_host not_confirmed empty_researcher expired : InvalidPolicy
  bad_snapshot_digest bruteforce_denied destructive_denied : InvalidPolicy
  not_finite_positive : Text → InvalidPolicy
  rate_above_maximum concurrency_out_of_range total_out_of_range : InvalidPolicy
  invalid_dns_host invalid_dns_label : Text → Text → InvalidPolicy
  no_schemes no_methods : InvalidPolicy
  unsupported_scheme unsupported_method : Text → InvalidPolicy
  host_included_and_excluded : InvalidPolicy
  child_without_hosts child_zero_concurrency child_zero_total child_expired : InvalidPolicy

-- One constructor for each message of `PolicyError::Broadening`.
pub data Broadening : Type 0 where
  host_not_permitted : Text → Broadening
  value_not_permitted : Text → Text → Broadening
  enables_subdomains enables_active_testing enables_callbacks : Broadening
  exceeds_rate exceeds_concurrency exceeds_total outlives_parent : Broadening

-- `PolicyError::Parse` comes only from the TOML reader.
pub data PolicyError : Type 0 where
  invalid : InvalidPolicy → PolicyError
  broadening : Broadening → PolicyError
