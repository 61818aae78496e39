-- ===== src/Vault/Sources.antt =====
-- crates/nxb-vault/src/lib.rs: the headers of a lease come from its own secrets, each bound to the
-- context of the lease.
use bound_seal.Vault.Store.{InMemorySecretVault}
use bound_seal.Std.Order.{list_ord, nat_ord}
use bound_seal.Std.Int.{ℤ, at_least}
use bound_seal.Vault.Checks.{
  validate_entry_identity, validate_header_value, is_reachable, validate_entry_access, is_expired,
  has_identity,
}
use bound_seal.Vault.Store.Materializing.{
  header_part, parts_of, no_part, Part, cookie_part, materialize_http_headers, entry_part,
  headers_of, cookie_outcome,
}
use bound_seal.Http1.Fields.{is_prohibited}
use bound_seal.Vault.Granting.{check_state-ok, materialize-ok}
use bound_seal.Std.Collections.{map_get}
use bound_seal.Std.Text.{to_ascii_lowercase, Text}
use bound_seal.Vault.Cookies.{cookie_applies}
use bound_seal.Vault.Types.{
  CookieMetadata, by_header, by_cookie, LeaseState, SecretHeaderLease, SecretLease, SecretEntry,
  SecretDelivery, VaultAccessContext,
}
use bound_seal.Vault.Chain.{VaultLib}
use bound_seal.Common.{
  false, some, true, ◌∷◌, ok, ◌∙◌, [], inr, sym, inl, ◌>>◌, not, List, if◌then◌else◌, fail_if-then,
  fail_if-eq-ok, ap, any, Bool-cases, ◌++◌, >>=-eq-ok, Option-cases, arith, ◌≡◌, refl,
}

-- A secret that the context may use at this time.
abbrev pub IsLive : SecretEntry → VaultAccessContext → ℤ → Type 0
IsLive entry context now =
    (is_expired entry.metadata.expires_at_epoch_seconds now ≡ false)
    × (has_identity entry.metadata.binding context ≡ true)

-- What a secret gives: nothing, a cookie that applies to the request, or a header, these two only
-- to a host and a scheme that it is bound to.
pub data Gives (entry : SecretEntry) (context : VaultAccessContext) (target : Text) (now : ℤ)
    (part : Part) : Type 0 where
  gives_nothing : IsLive entry context now → part ≡ no_part → Gives entry context target now part
  gives_cookie :
      (cookie : CookieMetadata)
      → IsLive entry context now
      → is_reachable entry.metadata.binding context ≡ true
      → entry.delivery ≡ by_cookie cookie
      → cookie_applies cookie context target now ≡ ok true
      → part ≡ cookie_part cookie.name entry.value
      → Gives entry context target now part
  gives_header :
      (name prefix : Text)
      → IsLive entry context now
      → is_reachable entry.metadata.binding context ≡ true
      → entry.delivery ≡ by_header name prefix
      → any is_prohibited (prefix ++ entry.value) ≡ false
      → part
        ≡ header_part record {
          normalized_name = to_ascii_lowercase name;
          wire_name = name;
          value = prefix ++ entry.value;
        }
      → Gives entry context target now part

-- Each handle names a secret of the vault, which gives the part at its place.
pub data AllGive (entries : List (Text × SecretEntry)) (context : VaultAccessContext)
    (target : Text) (now : ℤ) : List Text → List Part → Type 0 where
  none_give : AllGive entries context target now [] []
  one_gives :
      {handle : Text} {handles : List Text} {part : Part} {parts : List Part} (entry : SecretEntry)
      → map_get handle entries ≡ some entry
      → Gives entry context target now part
      → AllGive entries context target now handles parts
      → AllGive entries context target now (handle ∷ handles) (part ∷ parts)

identity-IsLive :
    (entry : SecretEntry) (context : VaultAccessContext) (now : ℤ) {u : Unit {0}}
    → validate_entry_identity entry context now ≡ ok u
    → IsLive entry context now
unfolding validate_entry_identity
identity-IsLive entry context now e =
    let (live, e) = fail_if-then (is_expired entry.metadata.expires_at_epoch_seconds now) _ _ e in
    let own = fail_if-eq-ok (not (has_identity entry.metadata.binding context)) _ e in
    (live, ground arith)

access-IsLive :
    (entry : SecretEntry) (context : VaultAccessContext) (now : ℤ) {u : Unit {0}}
    → validate_entry_access entry context now ≡ ok u
    → IsLive entry context now × (is_reachable entry.metadata.binding context ≡ true)
unfolding validate_entry_access
access-IsLive entry context now e =
    let (_, identity, e) = >>=-eq-ok (validate_entry_identity entry context now) _ e in
    let near = fail_if-eq-ok (not (is_reachable entry.metadata.binding context)) _ e in
    (identity-IsLive entry context now identity, ground arith)

entry_part-Gives :
    (entry : SecretEntry) (context : VaultAccessContext) (target : Text) (now : ℤ) (part : Part)
    → entry_part entry context target now ≡ ok part
    → Gives entry context target now part
unfolding entry_part cookie_outcome validate_header_value
entry_part-Gives entry context target now part e = by_delivery entry.delivery refl e
  where
    by_delivery :
        (d : SecretDelivery)
        → entry.delivery ≡ d
        → (elim d [
          | by_cookie cookie ↦
              validate_entry_identity entry context now
              >> (if is_reachable entry.metadata.binding context
                  then cookie_outcome cookie entry.value context target now
                  else ok no_part)
          | by_header name prefix ↦
              validate_entry_access entry context now
              >> validate_header_value (prefix ++ entry.value)
              >> ok (
                  header_part record {
                    normalized_name = to_ascii_lowercase name;
                    wire_name = name;
                    value = prefix ++ entry.value;
                  })
        ])
          ≡ ok part
        → Gives entry context target now part
    by_delivery (by_cookie cookie) d e =
        let (_, identity, e) = >>=-eq-ok (validate_entry_identity entry context now) _ e in
        let live = identity-IsLive entry context now identity in
        elim (Bool-cases (is_reachable entry.metadata.binding context)) [
          | inr h ↦ gives_nothing live (let e = rw h at e in cc)
          | inl h ↦
              let (applies, a, e) =
                >>=-eq-ok (cookie_applies cookie context target now) _ (rw h at e) in
              elim (Bool-cases applies) [
                | inl k ↦ gives_cookie cookie live h d (rw k at a) (let e = rw k at e in cc)
                | inr k ↦ gives_nothing live (let e = rw k at e in cc)
              ]
        ]
    by_delivery (by_header name prefix) d e =
        let (_, checks, e) =
          >>=-eq-ok
            (validate_entry_access entry context now
              >> validate_header_value (prefix ++ entry.value))
            _ e in
        let (_, access, valued) = >>=-eq-ok (validate_entry_access entry context now) _ checks in
        let (live, near) = access-IsLive entry context now access in
        let clean = fail_if-eq-ok (any is_prohibited (prefix ++ entry.value)) _ valued in
        gives_header name prefix live near d clean (cc)

parts_of-AllGive :
    (entries : List (Text × SecretEntry)) (handles : List Text) (context : VaultAccessContext)
    (target : Text) (now : ℤ) (parts : List Part)
    → parts_of entries handles context target now ≡ ok parts
    → AllGive entries context target now handles parts
unfolding parts_of
parts_of-AllGive entries [] context target now parts e =
    let form : parts ≡ [] = cc in rw form none_give
parts_of-AllGive entries (handle ∷ handles) context target now parts e =
    elim (Option-cases (map_get handle entries)) [
      | inl h ↦ absurd (let e = rw (parts_of, h) at e in cc)
      | inr (entry, h) ↦
          let (part, p, e) =
            >>=-eq-ok (entry_part entry context target now) _ (rw (parts_of, h) at e) in
          let (rest, q, e) = >>=-eq-ok (parts_of entries handles context target now) _ e in
          let form : parts ≡ part ∷ rest = cc in
          rw form (
            one_gives entry h (entry_part-Gives entry context target now part p)
              (parts_of-AllGive entries handles context target now rest q))
    ]

-- The lease that gave headers, and what they are.
pub record IsGranted (v : InMemorySecretVault) (held : SecretLease) (target : Text) (now : ℤ)
    (given : SecretHeaderLease) : Type 0 where
  pub state : LeaseState
  pub parts : List Part
  pub found : map_get held.lease_id v.leases ≡ some state
  pub kept : state.revoked ≡ false
  pub unused : state.consumed ≡ false
  pub early : at_least now state.expires_at_epoch_seconds ≡ false
  pub sources : AllGive v.entries state.context target now state.handles parts
  pub headers : given.headers ≡ headers_of parts
  pub authority : given.authority ≡ state.context.authority
  pub scheme : given.scheme ≡ state.context.scheme
  pub expiry : given.expires_at_epoch_seconds ≡ state.expires_at_epoch_seconds

-- Headers that a vault gives are those of the secrets that the lease names: the vault has each of
-- them, none has expired, each is bound to the identities of the lease's context, and those that
-- give a header or a cookie to its host and scheme as well. The lease was neither used nor revoked
-- nor expired, and the headers are bound to its host and scheme.
pub materialize_sound :
    (lib : VaultLib) (v : InMemorySecretVault) (held : SecretLease)
    (session_id request_target : Text) (now : ℤ) (given : SecretHeaderLease)
    → (materialize_http_headers lib v held session_id request_target now).0 ≡ ok given
    → IsGranted v held request_target now given
materialize_sound lib v held session_id request_target now given e =
    let (state, headers, _, found, checks, form, _) =
      materialize-ok lib v held session_id request_target now given e in
    let (parts, kept, unused, early, _, read, shape) =
      check_state-ok v state held request_target now headers checks in
    record {
      state = state;
      parts = parts;
      found = found;
      kept = kept;
      unused = unused;
      early = early;
      sources =
          parts_of-AllGive v.entries state.handles state.context request_target now parts read;
      headers = ap (λ x. x.headers) (sym form) ∙ shape;
      authority = ap (λ x. x.authority) (sym form);
      scheme = ap (λ x. x.scheme) (sym form);
      expiry = ap (λ x. x.expires_at_epoch_seconds) (sym form);
    }
