-- ===== src/External.antt =====
-- The third-party code that the modelled crates call, as records of operations.
use bound_seal.Common.{Option}
use bound_seal.Std.Text.{Text}

-- What the source uses of the `url` crate.
pub record UrlLib : Type 1 where
  pub Url : Type 0
  pub scheme : Url → Text
  pub username : Url → Text
  pub password : Url → Option Text
  pub host_str : Url → Option Text
  -- `set_query(None)`
  pub clear_query : Url → Url
  -- `set_fragment(None)`
  pub clear_fragment : Url → Url
  pub to_string : Url → Text
