-- ===== src/Examples/Values.antt =====
-- A fixed-point `f64`, a small URL library, a hash, and a policy in the manner of
-- crates/nxb-policy/src/lib.rs, `valid_policy`.
use bound_seal.Common.{
  ℕ, ◌+◌, ◌-◌, ◌*◌, ◌/◌, true, false, [], ◌∷◌, ◌++◌, none, some, ltb, leb, if◌then◌else◌, ok,
}
use bound_seal.Std.Text.{Text, text}
use bound_seal.Std.Float.{Float64}
use bound_seal.External.{UrlLib}
use bound_seal.Audit.{HashLib}
use bound_seal.Policy.Types.{TargetPolicy, ChildPolicy, CompiledPolicy}

-- Thousandths.
abbrev pub fixed : Float64
fixed = record {
  F = ℕ;
  literal = λ n. n * 1000;
  is_finite = λ _. true;
  lt = ltb;
  le = leb;
  add = λ a b. a + b;
  sub = λ a b. a - b;
  mul = λ a b. a * b / 1000;
  div = λ a b. a * 1000 / b;
  min = λ a b. if leb a b then a else b;
  max = λ a b. if leb a b then b else a;
  as_secs_f64 = λ nanoseconds. nanoseconds / 1000000;
  from_secs_f64 = λ x. some (x * 1000000);
}

-- A URL is its scheme and its host.
abbrev pub urls : UrlLib
urls = record {
  Url = Text × Text;
  scheme = λ url. url.0;
  username = λ _. [];
  password = λ _. none;
  host_str = λ url. some url.1;
  clear_query = λ url. url;
  clear_fragment = λ url. url;
  to_string = λ url. url.0 ++ (text "://" ++ url.1);
}

-- A record's bytes are its sequence number, and the hash of bytes is the bytes.
abbrev pub plain : (E : Type 0) → HashLib E
plain E = record { to_vec = λ material. ok (material.sequence ∷ []); sha256 = λ bytes. bytes }

abbrev pub digest : Text
digest = text "0123456789abcdef0123456789abcdef0123456789abcdef0123456789abcdef"

abbrev pub target : TargetPolicy ℕ
target = record {
  schema_version = 1;
  program = record { name = text "Example"; platform = text "local"; policy_url = none };
  scope = record {
    include_hosts = text "example.com" ∷ [];
    exclude_hosts = text "admin.example.com" ∷ [];
    allowed_schemes = text "https" ∷ [];
    allowed_methods = text "get" ∷ text "HEAD" ∷ [];
    allow_subdomains = true;
  };
  automation = record {
    active_testing = true;
    credential_bruteforce = false;
    destructive_testing = false;
    oob_callbacks = false;
    max_requests_per_second = 2000;
    max_concurrency = 4;
    max_total_requests = 10;
  };
  authorization = record {
    confirmed = true;
    researcher = text "tester";
    policy_snapshot_sha256 = digest;
    expires_at = 500;
  };
}

abbrev pub compiled : CompiledPolicy ℕ
compiled = record {
  inner = target;
  include_hosts = text "example.com" ∷ [];
  exclude_hosts = text "admin.example.com" ∷ [];
  allowed_schemes = text "https" ∷ [];
  allowed_methods = text "GET" ∷ text "HEAD" ∷ [];
}

abbrev pub child : ChildPolicy ℕ
child = record {
  include_hosts = some (text "api.example.com" ∷ []);
  exclude_hosts = [];
  allowed_schemes = none;
  allowed_methods = some (text "GET" ∷ []);
  allow_subdomains = some false;
  active_testing = none;
  oob_callbacks = none;
  max_requests_per_second = some 1000;
  max_concurrency = some 2;
  max_total_requests = none;
  expires_at = some 400;
}

abbrev pub narrowed : CompiledPolicy ℕ
narrowed = record {
  inner = record target {
    scope = record (target.scope) {
      include_hosts = text "api.example.com" ∷ [];
      allowed_methods = text "GET" ∷ [];
      allow_subdomains = false;
    };
    automation = record (target.automation) { max_requests_per_second = 1000; max_concurrency = 2 };
    authorization = record (target.authorization) { expires_at = 400 };
  };
  include_hosts = text "api.example.com" ∷ [];
  exclude_hosts = text "admin.example.com" ∷ [];
  allowed_schemes = text "https" ∷ [];
  allowed_methods = text "GET" ∷ [];
}
