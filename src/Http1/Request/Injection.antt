-- ===== src/Http1/Request/Injection.antt =====
-- crates/nxb-http1/src/codec.rs: no method, target, authority or header, secret or not, puts a line
-- of its own into the head of a request.
use bound_seal.Vault.Lines.{all_valid, secret_lines}
use bound_seal.Vault.Headers.{secret_line}
use bound_seal.Vault.Types.{MaterializedHeader}
use bound_seal.Std.Text.Bytes.{is_ascii_control}
use bound_seal.Std.Text.Excluding.{
  decimal-excludes, contains_byte-append, contains_byte-lowercase, all-excludes, any-excludes,
}
use bound_seal.Std.Order.{nat_ord, list_ord}
use bound_seal.Http1.Model.{Http1Request, Http1Header, Http1Limits}
use bound_seal.Std.Text.{
  decimal, is_prefix, eq_text, text, to_ascii_lowercase, is_ascii_lowercase, Text, contains_byte,
}
use bound_seal.Http1.Request.Wire.{
  public_line, header_line, host_line, secret_header_line, request_line, header-is_line,
  append_line-IsHead, append_header-IsHead, IsHead, is_line, unlines, is_line-append,
}
use bound_seal.Http1.Request.{
  is_sensitive_request_header, validate_request_header, close_head, is_managed_request_header,
  public_part, append_public, is_malformed_authority, Written, validate_method,
  append_request_prefix, validate_target,
}
use bound_seal.Http1.Fields.{is_prohibited, is_token_byte, crlf}
use mathlib.Core.List.{append_assoc, append-nil}
use bound_seal.Common.{
  ◌∙◌, map, ap, >>=-eq-ok, ◌++◌, List, fail_if-then, subst, ltb, ◌*◌, ◌∷◌, true, any, all, ◌||◌,
  length, sym, ◌==◌, arith, not, is_empty, fail_if-eq-ok, false, [], ok, ◌≡◌, refl,
}

token-is_line :
    (name : Text) → is_empty name ≡ false → all is_token_byte name ≡ true → is_line name ≡ true
token-is_line name some_bytes h =
    let clean = all-excludes is_token_byte 13 name refl h in ground arith

lowercase-is_line : (name : Text) → is_line name ≡ true → is_line (to_ascii_lowercase name) ≡ true
lowercase-is_line [] h = h
lowercase-is_line (c ∷ name) h =
    let clean : contains_byte 13 (c ∷ name) ≡ false = ground arith in
    let lowered = contains_byte-lowercase (c ∷ name) clean in ground arith

validate_method-is_line :
    (method : Text) {u : Unit {0}} → validate_method method ≡ ok u → is_line method ≡ true
unfolding validate_method
validate_method-is_line method e =
    let h =
      fail_if-eq-ok
        (is_empty method
          || ltb 32 (length method)
          || not (all is_token_byte method)
          || not (all (λ c. not (is_ascii_lowercase c)) method)
          || eq_text method (text "CONNECT"))
        _ e in
    token-is_line method (ground arith) (ground arith)

validate_target-excludes :
    (method target : Text) {u : Unit {0}}
    → validate_target method target ≡ ok u
    → contains_byte 13 target ≡ false
unfolding validate_target
validate_target-excludes method target e =
    let (h, _) =
      fail_if-then
        (is_empty target
          || ltb (8 * 1024) (length target)
          || any (λ c. is_ascii_control c || c == b' ') target
          || contains_byte b'#' target
          || is_prefix (text "http://") target
          || is_prefix (text "https://") target
          || is_prefix (text "//") target)
        _ _ e in
    any-excludes (λ c. is_ascii_control c || c == b' ') 13 target refl (ground arith)

authority-excludes :
    (authority : Text)
    → is_malformed_authority authority ≡ false
    → contains_byte 13 authority ≡ false
unfolding is_malformed_authority
authority-excludes authority h =
    any-excludes (λ c. is_ascii_control c || c == b' ' || c == b'/' || c == b'\\' || c == b'@') 13
      authority refl (ground arith)

-- The request line and the host.
prefix-IsHead :
    (request : Http1Request) (authority : Text)
    → is_line request.method ≡ true
    → contains_byte 13 request.target ≡ false
    → contains_byte 13 authority ≡ false
    → IsHead
        (request_line request ∷ host_line authority ∷ [])
        (append_request_prefix [] request authority)
unfolding append_request_prefix unlines text
prefix-IsHead request authority method target host =
    let full_target = request.target ++ text " HTTP/1.1" in
    let clean_target = contains_byte-append 13 request.target (text " HTTP/1.1") target refl in
    let named =
      is_line-append request.method (b' ' ∷ full_target) method (ground (arith, clean_target)) in
    let hosted = is_line-append (text "Host: ") authority refl host in
    record {
      form =
          rw
            (
              append_assoc full_target crlf (text "Host: "),
              append_assoc full_target (crlf ++ text "Host: ") authority,
              append_assoc full_target (crlf ++ text "Host: " ++ authority) crlf,
            )
            (sym (
              append_assoc request.method (b' ' ∷ full_target)
                (13 ∷ 10 ∷ (text "Host: " ++ authority ++ crlf))));
      lines = rw (named, hosted) refl;
    }

validate_request_header-ok :
    (header : Http1Header) (limits : Http1Limits) (name : Text)
    → validate_request_header header limits ≡ ok name
    → (is_line name ≡ true)
      × (contains_byte 13 header.value ≡ false)
      × (name ≡ to_ascii_lowercase header.name)
unfolding validate_request_header
validate_request_header-ok header limits name e =
    let (named, e) =
      fail_if-then
        (is_empty header.name
          || ltb limits.maximum_header_name_bytes (length header.name)
          || not (all is_token_byte header.name))
        _ _ e in
    let (valued, e) =
      fail_if-then
        (ltb limits.maximum_header_value_bytes (length header.value)
          || any is_prohibited header.value)
        _ _ e in
    let lowered : to_ascii_lowercase header.name ≡ name = cc in
    let line = token-is_line header.name (ground arith) (ground arith) in
    (
      subst (λ x. is_line x ≡ true) lowered (lowercase-is_line header.name line),
      any-excludes is_prohibited 13 header.value refl (ground arith),
      sym lowered,
    )

pub append_public-IsHead :
    (headers : List Http1Header) (limits : Http1Limits) (w v : Written) {ls : List Text}
    → append_public headers limits w ≡ ok v
    → IsHead ls w.output
    → IsHead (ls ++ map public_line headers) v.output
unfolding append_public
append_public-IsHead [] limits w v {ls} e k =
    let same : w ≡ v = cc in rw (append-nil ls) (subst (λ x. IsHead ls x.output) same k)
append_public-IsHead (header ∷ headers) limits w v {ls} e k =
    let (name, named, e) = >>=-eq-ok (validate_request_header header limits) _ e in
    let (_, e) = fail_if-then (is_managed_request_header name) _ _ e in
    let (_, e) = fail_if-then (is_sensitive_request_header name) _ _ e in
    let (line, clean, lowered) = validate_request_header-ok header limits name named in
    let onward =
      append_public-IsHead headers limits _ v e
        (append_header-IsHead w.output name header.value line clean k) in
    let joined = append_assoc ls (header_line name header.value ∷ []) (map public_line headers) in
    subst (λ n. IsHead (ls ++ header_line n header.value ∷ map public_line headers) v.output)
      lowered (subst (λ x. IsHead x v.output) joined onward)

pub secret_lines-IsHead :
    (headers : List MaterializedHeader) (output : Text) {ls : List Text}
    → all_valid headers ≡ true
    → IsHead ls output
    → IsHead (ls ++ map secret_header_line headers) (output ++ secret_lines headers)
unfolding all_valid secret_lines secret_line
secret_lines-IsHead [] output {ls} h k = rw (append-nil output, append-nil ls) k
secret_lines-IsHead (header ∷ headers) output {ls} h k =
    let line = token-is_line header.wire_name (ground arith) (ground arith) in
    let clean = any-excludes is_prohibited 13 header.value refl (ground arith) in
    let rest : all_valid headers ≡ true = ground arith in
    let sent = secret_header_line header in
    let here =
      append_line-IsHead output sent (header-is_line header.wire_name header.value line clean) k in
    let onward = secret_lines-IsHead headers (output ++ (sent ++ crlf)) rest here in
    let joined = append_assoc ls (sent ∷ []) (map secret_header_line headers) in
    rw (← append_assoc output (sent ++ crlf) (secret_lines headers))
      (subst (λ x. IsHead x (output ++ (sent ++ crlf) ++ secret_lines headers)) joined onward)

pub public_part-IsHead :
    (request : Http1Request) (authority : Text) (limits : Http1Limits) (w : Written)
    → public_part request authority limits ≡ ok w
    → IsHead (request_line request ∷ host_line authority ∷ map public_line request.headers) w.output
unfolding public_part
public_part-IsHead request authority limits w e =
    let (_, method, e) = >>=-eq-ok (validate_method request.method) _ e in
    let (_, target, e) = >>=-eq-ok (validate_target request.method request.target) _ e in
    let (host, e) = fail_if-then (is_malformed_authority authority) _ _ e in
    let (_, e) = fail_if-then (ltb limits.maximum_request_body_bytes (length request.body)) _ _ e in
    append_public-IsHead request.headers limits _ w e (
      prefix-IsHead request authority (validate_method-is_line request.method method)
        (validate_target-excludes request.method request.target target)
        (authority-excludes authority host))

-- The two lines that the code writes last, and the blank line.
pub close_head-lines :
    (request : Http1Request) (output : Text) {ls : List Text}
    → IsHead ls output
    → let closed =
        ls
        ++ header_line (text "Content-Length") (decimal (length request.body))
          ∷ header_line (text "Connection") (text "close")
          ∷ [] in
      (close_head request output ≡ unlines closed ++ crlf) × (all is_line closed ≡ true)
unfolding close_head text
close_head-lines request output {ls} k =
    let size = header_line (text "Content-Length") (decimal (length request.body)) in
    let lengths =
      append_header-IsHead output (text "Content-Length") (decimal (length request.body)) refl
        (decimal-excludes (length request.body)) k in
    let closed = append_header-IsHead _ (text "Connection") (text "close") refl refl lengths in
    let joined =
      append_assoc ls (size ∷ []) (header_line (text "Connection") (text "close") ∷ []) in
    (
      ap (λ x. x ++ crlf) (closed.form ∙ ap unlines joined),
      subst (λ x. all is_line x ≡ true) joined closed.lines,
    )
