-- ===== src/Http1/Request/Redaction.antt =====
-- crates/nxb-http1/src/codec.rs: the audit's wire tells nothing of the secrets but their lengths.
use bound_seal.Std.Int.{ℤ}
use bound_seal.Vault.Types.{SecretHeaderLease, VaultError, SecretHeaderBatch, MaterializedHeader}
use bound_seal.Http1.Model.{Http1Request, Http1Limits}
use bound_seal.Vault.Headers.{take_for, header_count, append_http1, redacted_line}
use bound_seal.Std.Text.{Text}
use bound_seal.Http1.Request.{
  serialize_taken, close_head, serialize_request, append_secret, public_part, finish_request,
  SerializedRequest, check_collisions, check_count, map_vault_error, SecretPart, append_batch,
  Written,
}
use bound_seal.Vault.Lines.{take_for-ok, append_http1-ok, redacted_lines, all_valid, secret_lines}
use bound_seal.Common.{
  ltb, inr, inl, Result-cases, fail_if-then, ◌+◌, Result, >>=-eq-ok, ◌∙◌, sym, err, List, some,
  true, ◌∷◌, ◌++◌, length, map, ok, [], ap, ℕ, ◌≡◌, refl,
}

-- What may be known of a secret header.
abbrev pub shape : MaterializedHeader → Text × Text × ℕ
shape header = (header.normalized_name, header.wire_name, length header.value)

abbrev pub shapes : List MaterializedHeader → List (Text × Text × ℕ)
shapes = map shape

-- Two batches that differ in the values of their headers alone, not in the lengths.
pub record AreAlike (a b : SecretHeaderBatch) : Type 0 where
  pub fingerprints : a.lease_fingerprint ≡ b.lease_fingerprint
  pub headers : shapes a.headers ≡ shapes b.headers

redacted_lines-shapes :
    (xs ys : List MaterializedHeader)
    → shapes xs ≡ shapes ys
    → (redacted_lines xs ≡ redacted_lines ys) × (length xs ≡ length ys)
unfolding redacted_lines redacted_line
redacted_lines-shapes [] [] e = (refl, refl)
redacted_lines-shapes [] (y ∷ ys) e = absurd (cc)
redacted_lines-shapes (x ∷ xs) [] e = absurd (cc)
redacted_lines-shapes (x ∷ xs) (y ∷ ys) e =
    let here : shape x ≡ shape y = cc in
    let there : shapes xs ≡ shapes ys = cc in
    let (lines, count) = redacted_lines-shapes xs ys there in
    let name : x.wire_name ≡ y.wire_name = ap (λ s. s.1) here in
    let size : length x.value ≡ length y.value = ap (λ s. s.2) here in
    (rw (name, size, lines) refl, rw count refl)

map_vault_error-ok :
    (outcome : Result VaultError (Unit {0})) {u : Unit {0}}
    → map_vault_error outcome ≡ ok u
    → outcome ≡ ok u
map_vault_error-ok (err e) h = absurd (cc)
map_vault_error-ok (ok u) h = cc

-- What a batch that was appended leaves.
pub append_batch-ok :
    (request : Http1Request) (limits : Http1Limits) (w : Written) (batch : SecretHeaderBatch)
    (s : SecretPart)
    → append_batch request limits w batch ≡ ok s
    → (s.written.audit_output ≡ w.audit_output ++ redacted_lines batch.headers)
      × (s.written.output ≡ w.output ++ secret_lines batch.headers)
      × (all_valid batch.headers ≡ true)
      × (s.count ≡ length batch.headers)
      × (s.fingerprint ≡ some batch.lease_fingerprint)
unfolding append_batch header_count
append_batch-ok request limits w batch s e =
    let (_, _, e) = >>=-eq-ok (check_collisions batch w.public_names) _ e in
    let (_, _, e) = >>=-eq-ok (check_count request limits (length batch.headers)) _ e in
    let after = append_http1 batch w.output w.audit_output in
    let (_, sent, e) = >>=-eq-ok (map_vault_error after.0) _ e in
    let (_, wire, redacted, valid, _) =
      append_http1-ok batch w.output w.audit_output (map_vault_error-ok after.0 sent) in
    let form : record {
      written = record { output = after.1; audit_output = after.2; public_names = w.public_names };
      count = length batch.headers;
      fingerprint = some batch.lease_fingerprint;
    }
        ≡ s =
      cc in
    (
      ap (λ x. x.written.audit_output) (sym form) ∙ redacted,
      ap (λ x. x.written.output) (sym form) ∙ wire,
      valid,
      ap (λ x. x.count) (sym form),
      ap (λ x. x.fingerprint) (sym form),
    )

pub finish_request-ok :
    (request : Http1Request) (limits : Http1Limits) (part : SecretPart) (s : SerializedRequest)
    → finish_request request limits part ≡ ok s
    → s ≡ record {
      wire = close_head request part.written.output ++ request.body;
      redacted_audit_wire = close_head request part.written.audit_output ++ request.body;
      header_count = length request.headers + part.count + 3;
      secret_header_count = part.count;
      secret_lease_fingerprint = part.fingerprint;
    }
unfolding finish_request
finish_request-ok request limits part s e =
    let (_, e) =
      fail_if-then
        (ltb limits.maximum_request_header_bytes (length (close_head request part.written.output)))
        _ _ e in
    cc

-- What a request with the headers of a lease went through.
pub serialize_request-secret :
    (request : Http1Request) (authority scheme : Text) (limits : Http1Limits)
    (lease : SecretHeaderLease) (now : ℤ) (s : SerializedRequest)
    → (serialize_request request authority scheme limits (some (lease, now))).0 ≡ ok s
    → (w : Written) × (batch : SecretHeaderBatch) × (part : SecretPart) × (public_part request
          authority limits
        ≡ ok w)
      × ((take_for lease authority scheme now).0 ≡ ok batch)
      × (append_batch request limits w batch ≡ ok part)
      × (finish_request request limits part ≡ ok s)
      × ((serialize_request request authority scheme limits (some (lease, now))).1
          ≡ some (take_for lease authority scheme now).1)
unfolding serialize_request serialize_taken append_secret
serialize_request-secret request authority scheme limits lease now s e =
    elim (Result-cases (public_part request authority limits)) [
      | inr (error, h) ↦ absurd (let e = rw (serialize_request, h) at e in cc)
      | inl (_, h) ↦
          let e = rw (serialize_request, h) at e in
          let (w, public, e) = >>=-eq-ok (public_part request authority limits) _ e in
          let (part, f, e) =
            >>=-eq-ok
              (append_secret request limits w (some (take_for lease authority scheme now).0)) _ e in
          let (batch, t, f) =
            >>=-eq-ok (map_vault_error (take_for lease authority scheme now).0) _ f in
          (
            w,
            batch,
            part,
            public,
            batch_taken (take_for lease authority scheme now).0 t,
            f,
            e,
            rw (serialize_request, h) refl,
          )
    ]
  where
    batch_taken :
        {batch : SecretHeaderBatch} (outcome : Result VaultError SecretHeaderBatch)
        → map_vault_error outcome ≡ ok batch
        → outcome ≡ ok batch
    batch_taken (err e) h = absurd (cc)
    batch_taken (ok b) h = cc

-- Two leases that differ in the values of their headers alone, not in the lengths.
pub record AreAlikeLeases (a b : SecretHeaderLease) : Type 0 where
  pub fingerprints : a.fingerprint ≡ b.fingerprint
  pub headers : shapes a.headers ≡ shapes b.headers

-- Two requests that differ in the values of their secret headers alone leave the audit the same
-- bytes and the same counts: it learns no more of a secret than its length.
pub redacted_audit_wire-AreAlikeLeases :
    (request : Http1Request) (authority scheme : Text) (limits : Http1Limits)
    (a b : SecretHeaderLease) (now later : ℤ) (s t : SerializedRequest)
    → AreAlikeLeases a b
    → (serialize_request request authority scheme limits (some (a, now))).0 ≡ ok s
    → (serialize_request request authority scheme limits (some (b, later))).0 ≡ ok t
    → (s.redacted_audit_wire ≡ t.redacted_audit_wire)
      × (s.header_count ≡ t.header_count)
      × (s.secret_header_count ≡ t.secret_header_count)
      × (s.secret_lease_fingerprint ≡ t.secret_lease_fingerprint)
redacted_audit_wire-AreAlikeLeases request authority scheme limits a b now later s t k e f =
    let (w, batch_a, part_a, public_a, taken_a, appended_a, finished_a, _) =
      serialize_request-secret request authority scheme limits a now s e in
    let (v, batch_b, part_b, public_b, taken_b, appended_b, finished_b, _) =
      serialize_request-secret request authority scheme limits b later t f in
    let same_public : w ≡ v = cc in
    let (audit_a, _, _, count_a, print_a) =
      append_batch-ok request limits w batch_a part_a appended_a in
    let (audit_b, _, _, count_b, print_b) =
      append_batch-ok request limits v batch_b part_b appended_b in
    let (_, _, _, _, form_a, _, _) = take_for-ok a authority scheme now batch_a taken_a in
    let (_, _, _, _, form_b, _, _) = take_for-ok b authority scheme later batch_b taken_b in
    let headers_a : batch_a.headers ≡ a.headers = ap (λ x. x.headers) form_a in
    let headers_b : batch_b.headers ≡ b.headers = ap (λ x. x.headers) form_b in
    let prints_a : batch_a.lease_fingerprint ≡ a.fingerprint =
      ap (λ x. x.lease_fingerprint) form_a in
    let prints_b : batch_b.lease_fingerprint ≡ b.fingerprint =
      ap (λ x. x.lease_fingerprint) form_b in
    let (lines, count) = redacted_lines-shapes a.headers b.headers k.headers in
    let wires : part_a.written.audit_output ≡ part_b.written.audit_output =
      audit_a
      ∙ ap (λ hs. w.audit_output ++ redacted_lines hs) headers_a
      ∙ ap (λ l. w.audit_output ++ l) lines
      ∙ ap (λ x. x.audit_output ++ redacted_lines b.headers) same_public
      ∙ ap (λ hs. v.audit_output ++ redacted_lines hs) (sym headers_b)
      ∙ sym audit_b in
    let counts : part_a.count ≡ part_b.count =
      count_a ∙ ap length headers_a ∙ count ∙ ap length (sym headers_b) ∙ sym count_b in
    let prints : part_a.fingerprint ≡ part_b.fingerprint =
      print_a ∙ ap some (prints_a ∙ k.fingerprints ∙ sym prints_b) ∙ sym print_b in
    rw
      (
        finish_request-ok request limits part_a s finished_a,
        finish_request-ok request limits part_b t finished_b,
      )
      (
        ap (λ x. close_head request x ++ request.body) wires,
        ap (λ n. length request.headers + n + 3) counts,
        counts,
        prints,
      )
