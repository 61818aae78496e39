-- ===== src/Http1/Request/Head.antt =====
-- crates/nxb-http1/src/codec.rs: the request that is sent, as its receiver splits it.
use bound_seal.Std.Order.{nat_ord, list_ord}
use bound_seal.Vault.Lines.{take_for-ok}
use bound_seal.Http1.Request.Redaction.{
  append_batch-ok, serialize_request-secret, finish_request-ok,
}
use bound_seal.Vault.Types.{MaterializedHeader, SecretHeaderLease}
use bound_seal.Std.Int.{ℤ}
use bound_seal.Std.Text.{decimal, text, Text}
use bound_seal.Http1.Model.{Http1Limits, Http1Request}
use bound_seal.Http1.Request.Injection.{secret_lines-IsHead, public_part-IsHead, close_head-lines}
use bound_seal.Vault.Store.Operations.{lease}
use bound_seal.Http1.Fields.{crlf, find_double_crlf}
use bound_seal.Http1.Request.Wire.{
  public_line, secret_header_line, host_line, header_line, header_lines, request_line, IsHead,
  is_line, find_double_crlf-unlines, unlines,
}
use bound_seal.Http1.Chunked.Written.{drop-line}
use bound_seal.Http1.Request.{
  public_part, serialize_taken, SecretPart, append_secret, SerializedRequest, check_count,
  serialize_request, finish_request,
}
use mathlib.Core.List.{append-nil, append_assoc}
use bound_seal.Common.{
  length-map, sym, [], map, length-append, Option, ◌+◌, ok, drop, ◌++◌, ◌∙◌, ap, arith, length,
  subst, ◌∷◌, some, List, none, true, >>=-eq-ok, all, ◌≡◌,
}

-- The secret headers that are to be sent: those of the lease.
abbrev pub secrets_of : Option (SecretHeaderLease × ℤ) → List MaterializedHeader
secrets_of none = []
secrets_of (some (lease, _)) = lease.headers

-- The wire of a request: its request line and header lines, none with a CR and none empty; then a
-- blank line, the first, and the body. As many headers are counted as there are header lines.
pub record IsWire (request : Http1Request) (authority : Text) (secrets : List MaterializedHeader)
    (s : SerializedRequest) : Type 0 where
  pub form :
      s.wire
      ≡ unlines (request_line request ∷ header_lines request authority secrets)
        ++ crlf
        ++ request.body
  pub lines : all is_line (request_line request ∷ header_lines request authority secrets) ≡ true
  pub count : length (header_lines request authority secrets) ≡ s.header_count
  pub found :
      find_double_crlf s.wire
      ≡ some (length (unlines (request_line request ∷ header_lines request authority secrets)) + 2)
  pub rest :
      drop
        (length (unlines (request_line request ∷ header_lines request authority secrets)) + 2)
        s.wire
      ≡ request.body

length-header_lines :
    (request : Http1Request) (authority : Text) (secrets : List MaterializedHeader)
    → length (header_lines request authority secrets) ≡ length request.headers + length secrets + 3
length-header_lines request authority secrets =
    let hosted = host_line authority ∷ map public_line request.headers in
    let sent = map secret_header_line secrets in
    let closing =
      header_line (text "Content-Length") (decimal (length request.body))
      ∷ header_line (text "Connection") (text "close")
      ∷ [] in
    let a : length (hosted ++ sent ++ closing) ≡ length (hosted ++ sent) + 2 =
      length-append (hosted ++ sent) closing in
    let b : length (hosted ++ sent) ≡ 1 + length request.headers + length secrets = omega (
      arith,
      length-append hosted sent,
      length-map public_line request.headers,
      length-map secret_header_line secrets,
    ) in
    omega (arith, a, b)

finish_request-IsWire :
    (request : Http1Request) (authority : Text) (limits : Http1Limits) (part : SecretPart)
    (secrets : List MaterializedHeader) (s : SerializedRequest)
    → part.count ≡ length secrets
    → IsHead
        (request_line request ∷ host_line authority ∷ map public_line request.headers
          ++ map secret_header_line secrets)
        part.written.output
    → finish_request request limits part ≡ ok s
    → IsWire request authority secrets s
finish_request-IsWire request authority limits part secrets s sized k e =
    let first = request_line request in
    let others = header_lines request authority secrets in
    let (form, lines) = close_head-lines request part.written.output k in
    let shape = finish_request-ok request limits part s e in
    let wire : s.wire ≡ unlines (first ∷ others) ++ crlf ++ request.body =
      ap (λ x. x.wire) shape ∙ ap (λ x. x ++ request.body) form in
    let counted : s.header_count ≡ length request.headers + part.count + 3 =
      ap (λ x. x.header_count) shape in
    let split_wire : s.wire ≡ unlines (first ∷ others) ++ 13 ∷ 10 ∷ request.body =
      wire ∙ append_assoc (unlines (first ∷ others)) crlf request.body in
    record {
      form = wire;
      lines = lines;
      count = omega (arith, length-header_lines request authority secrets, counted, sized);
      found = rw split_wire (find_double_crlf-unlines first others request.body lines);
      rest = rw split_wire (drop-line (unlines (first ∷ others)) 13 10 request.body);
    }

-- A request that is serialized, with the headers of a lease or without, is on the wire these lines
-- and then its body: the request line of its method and target under HTTP/1.1, the host, its
-- headers in order under their lowercase names, the headers of the lease in order, the length of
-- the body and the close of the connection. No line is empty or has a CR, the first blank line
-- stands before the body, and as many headers are counted as there are header lines.
pub serialize_request-IsWire :
    (request : Http1Request) (authority scheme : Text) (limits : Http1Limits)
    (secret : Option (SecretHeaderLease × ℤ)) (s : SerializedRequest)
    → (serialize_request request authority scheme limits secret).0 ≡ ok s
    → IsWire request authority (secrets_of secret) s
unfolding serialize_request serialize_taken append_secret
serialize_request-IsWire request authority scheme limits none s e =
    let (w, public, e) = >>=-eq-ok (public_part request authority limits) _ e in
    let (part, f, e) = >>=-eq-ok (append_secret request limits w none) _ e in
    let (_, _, f) = >>=-eq-ok (check_count request limits 0) _ f in
    let form : record { written = w; count = 0; fingerprint = none } ≡ part = cc in
    let head = public_part-IsHead request authority limits w public in
    finish_request-IsWire request authority limits part [] s (ap (λ p. p.count) (sym form))
      (rw (append-nil (map public_line request.headers)) (
        subst
          (λ p.
            IsHead (request_line request ∷ host_line authority ∷ map public_line request.headers)
              p.written.output)
          form head))
      e
serialize_request-IsWire request authority scheme limits (some (lease, now)) s e =
    let (w, batch, part, public, taken, appended, finished, _) =
      serialize_request-secret request authority scheme limits lease now s e in
    let (_, output, valid, count, _) = append_batch-ok request limits w batch part appended in
    let (_, _, _, _, form, _, _) = take_for-ok lease authority scheme now batch taken in
    let same : batch.headers ≡ lease.headers = ap (λ x. x.headers) form in
    let head = public_part-IsHead request authority limits w public in
    let longer = secret_lines-IsHead batch.headers w.output valid head in
    finish_request-IsWire request authority limits part lease.headers s (count ∙ ap length same)
      (subst
        (λ hs.
          IsHead
            (request_line request ∷ host_line authority ∷ map public_line request.headers
              ++ map secret_header_line hs)
            part.written.output)
        same (rw output longer))
      finished
