-- ===== src/Vault/Lines.antt =====
-- crates/nxb-vault/src/lib.rs: what `append_http1` writes when it succeeds.
use bound_seal.Std.Int.{ℤ, at_least}
use bound_seal.Std.Order.{same_iff, nat_ord, list_ord}
use bound_seal.Std.Text.{eq_text, Text}
use bound_seal.Http1.Fields.{is_token_byte, is_prohibited}
use bound_seal.Vault.Headers.{
  append_http1, taken, take_for, redacted_line, secret_line, append_lines,
}
use bound_seal.Vault.Checks.{
  normalize_scheme, normalize_host, validate_header_value, validate_header_name,
}
use bound_seal.Vault.Types.{SecretHeaderBatch, SecretHeaderLease, MaterializedHeader, VaultError}
use mathlib.Core.List.{append_assoc, append-nil}
use bound_seal.Common.{
  >>=-eq-ok, Bool-cases, ap, any, not, sym, ◌&&◌, fail_if-then, List, inl, ◌>>◌, ◌||◌, Result-cases,
  ◌∷◌, Bool, false, Result, ltb, ◌++◌, fail_if-eq-ok, arith, ◌∙◌, true, [], inr, ok, is_empty, all,
  length, ◌≡◌, refl,
}

unfoldable pub secret_lines : List MaterializedHeader → Text
secret_lines [] = []
secret_lines (header ∷ headers) = secret_line header ++ secret_lines headers

unfoldable pub redacted_lines : List MaterializedHeader → Text
redacted_lines [] = []
redacted_lines (header ∷ headers) = redacted_line header ++ redacted_lines headers

-- Every header can be sent.
unfoldable pub all_valid : List MaterializedHeader → Bool
all_valid [] = true
all_valid (header ∷ headers) =
    all is_token_byte header.wire_name
    && not (is_empty header.wire_name)
    && not (any is_prohibited header.value)
    && all_valid headers

-- What was written, and that it may be sent.
pub record AreAppended (headers : List MaterializedHeader) (wire redacted_wire : Text)
    (outcome : Result VaultError (Unit {0}) × Text × Text) : Type 0 where
  pub sent : outcome.1 ≡ wire ++ secret_lines headers
  pub redacted : outcome.2 ≡ redacted_wire ++ redacted_lines headers
  pub valid : all_valid headers ≡ true

header_valid :
    (header : MaterializedHeader) {u : Unit {0}}
    → (validate_header_name header.wire_name >> validate_header_value header.value) ≡ ok u
    → (all is_token_byte header.wire_name ≡ true)
      × (is_empty header.wire_name ≡ false)
      × (any is_prohibited header.value ≡ false)
unfolding validate_header_name validate_header_value
header_valid header e =
    let (name, e) =
      fail_if-then
        (is_empty header.wire_name
          || ltb 256 (length header.wire_name)
          || not (all is_token_byte header.wire_name))
        _ _ e in
    let value = fail_if-eq-ok (any is_prohibited header.value) _ e in
    (ground arith, ground arith, value)

pub append_lines-AreAppended :
    (headers : List MaterializedHeader) (wire redacted_wire : Text) {u : Unit {0}}
    → (append_lines headers wire redacted_wire).0 ≡ ok u
    → AreAppended headers wire redacted_wire (append_lines headers wire redacted_wire)
unfolding append_lines secret_lines redacted_lines all_valid
append_lines-AreAppended [] wire redacted_wire e = record {
  sent = sym (append-nil wire);
  redacted = sym (append-nil redacted_wire);
  valid = refl;
}
append_lines-AreAppended (header ∷ headers) wire redacted_wire e =
    elim (Result-cases
      (validate_header_name header.wire_name >> validate_header_value header.value)) [
        | inr (error, h) ↦ absurd (let e = rw (append_lines, h) at e in cc)
        | inl (u, h) ↦
            let (token, named, clean) = header_valid header h in
            let k =
              append_lines-AreAppended headers (wire ++ secret_line header)
                (redacted_wire ++ redacted_line header) (rw (append_lines, h) at e) in
            rw (append_lines, h)
              (record {
                sent = k.sent ∙ append_assoc wire (secret_line header) (secret_lines headers);
                redacted =
                    k.redacted
                    ∙ append_assoc redacted_wire (redacted_line header) (redacted_lines headers);
                valid = rw (token, named, clean, k.valid) refl;
              })
      ]

-- A batch writes its headers once.
pub append_http1-ok :
    (batch : SecretHeaderBatch) (wire redacted_wire : Text) {u : Unit {0}}
    → (append_http1 batch wire redacted_wire).0 ≡ ok u
    → (batch.emitted ≡ false)
      × ((append_http1 batch wire redacted_wire).1 ≡ wire ++ secret_lines batch.headers)
      × ((append_http1 batch wire redacted_wire).2 ≡ redacted_wire ++ redacted_lines batch.headers)
      × (all_valid batch.headers ≡ true)
      × ((append_http1 batch wire redacted_wire).3.emitted ≡ true)
unfolding append_http1
append_http1-ok batch wire redacted_wire e = elim (Bool-cases batch.emitted) [
  | inl h ↦ absurd (let e = rw (append_http1, h) at e in cc)
  | inr h ↦
      let k =
        append_lines-AreAppended batch.headers wire redacted_wire (rw (append_http1, h) at e) in
      (
        h,
        rw (append_http1, h) k.sent,
        rw (append_http1, h) k.redacted,
        k.valid,
        rw (append_http1, h) refl,
      )
]

-- A batch that is taken has the headers of the lease, which has none after that; the lease was not
-- consumed, is bound to this host and scheme, and has not expired.
pub take_for-ok :
    (lease : SecretHeaderLease) (authority scheme : Text) (now : ℤ) (batch : SecretHeaderBatch)
    → (take_for lease authority scheme now).0 ≡ ok batch
    → (lease.consumed ≡ false)
      × (at_least now lease.expires_at_epoch_seconds ≡ false)
      × (normalize_host authority ≡ ok lease.authority)
      × (normalize_scheme scheme ≡ ok lease.scheme)
      × (batch ≡ record {
        lease_fingerprint = lease.fingerprint;
        headers = lease.headers;
        emitted = false;
      })
      × ((take_for lease authority scheme now).1.headers ≡ [])
      × ((take_for lease authority scheme now).1.consumed ≡ true)
unfolding take_for taken
take_for-ok lease authority scheme now batch e = elim (Bool-cases lease.consumed) [
  | inl h ↦ absurd (let e = rw (take_for, h) at e in cc)
  | inr h ↦ elim (Result-cases (taken lease authority scheme now)) [
    | inr (error, k) ↦ absurd (let e = rw (take_for, h, k) at e in cc)
    | inl (b, k) ↦
        let same : b ≡ batch = (let e = rw (take_for, h, k) at e in cc) in
        let (early, f) = fail_if-then (at_least now lease.expires_at_epoch_seconds) _ _ k in
        let (host, g, f) = >>=-eq-ok (normalize_host authority) _ f in
        let (bound, f) = fail_if-then (not (eq_text host lease.authority)) _ _ f in
        let (protocol, i, f) = >>=-eq-ok (normalize_scheme scheme) _ f in
        let (spoken, f) = fail_if-then (not (eq_text protocol lease.scheme)) _ _ f in
        let same_host : host ≡ lease.authority = ground (arith, same_iff host lease.authority) in
        let same_scheme : protocol ≡ lease.scheme =
          ground (arith, same_iff protocol lease.scheme) in
        (
          h,
          early,
          rw g (ap ok same_host),
          rw i (ap ok same_scheme),
          cc,
          rw (take_for, h, k) refl,
          rw (take_for, h, k) refl,
        )
  ]
]
