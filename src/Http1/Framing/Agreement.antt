-- ===== src/Http1/Framing/Agreement.antt =====
-- crates/nxb-http1/src/parser.rs: the framing of a response is the only one its headers allow.
use mathlib.Core.Bool.{false≢true}
use bound_seal.Gateway.Types.{status_code}
use bound_seal.Http1.Fields.{is_token_byte, trim_ows}
use bound_seal.Http1.Framing.Components.{
  collected-one, collected-nil, collected-cons, components-cons, split-cases,
}
use bound_seal.Std.Text.{is_ascii_digit, Text, to_ascii_lowercase, text, eq_text, split}
use bound_seal.Std.Text.Bytes.{decimal_value}
use bound_seal.Std.Order.{same_iff}
use bound_seal.Http1.Model.{
  http10, content_length, connection_close, chunked, Http1Framing, no_body, Http1Version, http11,
  Http1Header,
}
use bound_seal.Http1.Framing.{
  is_http11, framing_of, parse_transfer_encoding, parse_content_length, coding_component,
  determine_framing, single_coding, length_component, components, collected, is_bodiless, values_of,
  agreed_length,
}
use bound_seal.Std.Order.{list_ord, nat_ord}
use bound_seal.Common.{
  >>=-eq-ok, Bool-cases, ◌||◌, subst, arith, u64_max, ◌⊎◌, ◌∷◌, not, all, ◌≤◌, none, all-append, ok,
  some, inr, ◌==◌, Bool, Option, any, false, inl, true, sym, List, ltb, &&-true, ◌&&◌, is_empty, [],
  fail_if-then, ℕ, ◌≡◌, refl,
}

-- A component of a `Content-Length` that says `n`, and a value all of whose components do.
abbrev spells : ℕ → Text → Bool
spells n part =
    not (is_empty (trim_ows part))
    && all is_ascii_digit (trim_ows part)
    && decimal_value (trim_ows part) == n

abbrev pub says : ℕ → Text → Bool
says n value = all (spells n) (split b',' value)

-- What the headers are when a response has this framing.
pub IsFraming : Text → Http1Version → ℕ → List Http1Header → Http1Framing → Type 0
IsFraming request_method version status_code headers no_body =
    is_bodiless request_method status_code ≡ true
IsFraming request_method version status_code headers chunked =
    (is_bodiless request_method status_code ≡ false)
    × (version ≡ http11)
    × (values_of (text "content-length") headers ≡ [])
    × (value : Text) × (values_of (text "transfer-encoding") headers ≡ value ∷ [])
    × (to_ascii_lowercase (trim_ows value) ≡ text "chunked")
IsFraming request_method version status_code headers (content_length n) =
    (is_bodiless request_method status_code ≡ false)
    × (values_of (text "transfer-encoding") headers ≡ [])
    × (is_empty (values_of (text "content-length") headers) ≡ false)
    × (all (says n) (values_of (text "content-length") headers) ≡ true)
    × (n ≤ u64_max)
IsFraming request_method version status_code headers connection_close =
    (is_bodiless request_method status_code ≡ false)
    × (values_of (text "transfer-encoding") headers ≡ [])
    × (values_of (text "content-length") headers ≡ [])

abbrev equals : ℕ → ℕ → Bool
equals n value = value == n

length_component-spells :
    (part : Text) (v : ℕ) → length_component part ≡ ok v → (spells v part ≡ true) × (v ≤ u64_max)
unfolding length_component
length_component-spells part v e =
    let (digits, e) =
      fail_if-then (is_empty (trim_ows part) || not (all is_ascii_digit (trim_ows part))) _ _ e in
    let (small, e) = fail_if-then (ltb u64_max (decimal_value (trim_ows part))) _ _ e in
    let same : decimal_value (trim_ows part) ≡ v = cc in (ground arith, ground arith)

components-spells :
    (n : ℕ) (parts : List Text) (values : List ℕ)
    → components length_component parts ≡ ok values
    → all (equals n) values ≡ true
    → (all (spells n) parts ≡ true) × (is_empty parts ≡ false → n ≤ u64_max)
components-spells n [] values e h = (refl, λ other. absurd (false≢true (sym other)))
components-spells n (part ∷ parts) values e h =
    let (first, rest, f, g, form) = components-cons length_component part parts values e in
    let h = rw form at h in
    let (here, there) = &&-true (first == n) (all (equals n) rest) h in
    let same : first ≡ n = ground arith in
    let (spelled, small) = length_component-spells part first f in
    let (others, _) = components-spells n parts rest g there in
    let spelled : spells n part ≡ true = subst (λ x. spells x part ≡ true) same spelled in
    (rw spelled others, λ _. subst (λ x. x ≤ u64_max) same small)

collected-says :
    (n : ℕ) (message : Text) (headers : List Text) (values : List ℕ)
    → collected length_component message headers ≡ ok values
    → all (equals n) values ≡ true
    → (all (says n) headers ≡ true) × (is_empty headers ≡ false → n ≤ u64_max)
collected-says n message [] values e h = (refl, λ other. absurd (false≢true (sym other)))
collected-says n message (value ∷ headers) values e h =
    let (first, rest, f, g, form) =
      collected-cons length_component message value headers values e in
    let (here, there) =
      &&-true (all (equals n) first) (all (equals n) rest)
        (rw (← all-append (equals n) first rest, ← form) h) in
    let (spelled, small) = components-spells n (split b',' value) first f here in
    let (w, ws, s) = split-cases b',' value in
    let (others, _) = collected-says n message headers rest g there in
    (rw (spelled, others) refl, λ _. small (rw s refl))

-- The two ways in which the lengths agree.
agreed_length-ok :
    (values : List ℕ) (length : Option ℕ)
    → agreed_length values ≡ ok length
    → ((values ≡ []) × (length ≡ none))
      ⊎ ((n : ℕ) × (length ≡ some n) × (is_empty values ≡ false) × (all (equals n) values ≡ true))
unfolding agreed_length
agreed_length-ok [] length e = inl (refl, cc)
agreed_length-ok (first ∷ rest) length e =
    let (agreed, e) = fail_if-then (any (λ value. not (value == first)) (first ∷ rest)) _ _ e in
    inr (first, cc, refl, not_any first (first ∷ rest) agreed)
  where
    not_any :
        (n : ℕ) (values : List ℕ)
        → any (λ value. not (value == n)) values ≡ false
        → all (equals n) values ≡ true
    not_any n [] h = refl
    not_any n (v ∷ values) h =
        let rest : any (λ value. not (value == n)) values ≡ false = ground arith in
        let onward = not_any n values rest in ground arith

single_coding-ok :
    (tokens : List Text) (coded : Bool)
    → single_coding tokens ≡ ok coded
    → ((tokens ≡ []) × (coded ≡ false)) ⊎ ((tokens ≡ text "chunked" ∷ []) × (coded ≡ true))
unfolding single_coding
single_coding-ok [] coded e = inl (refl, cc)
single_coding-ok (token ∷ tokens) coded e =
    let (one, e) =
      fail_if-then (not (is_empty tokens) || not (eq_text token (text "chunked"))) _ _ e in
    let alone : is_empty tokens ≡ true = ground arith in
    let named : eq_text token (text "chunked") ≡ true = ground arith in
    let name : token ≡ text "chunked" = ground (arith, same_iff token (text "chunked")) in
    inr (rw (no_more tokens alone, name) refl, cc)
  where
    no_more : (tokens : List Text) → is_empty tokens ≡ true → tokens ≡ []
    no_more [] h = refl
    no_more (t ∷ ts) h = absurd (false≢true h)

coding_component-ok :
    (part token : Text)
    → coding_component part ≡ ok token
    → to_ascii_lowercase (trim_ows part) ≡ token
unfolding coding_component
coding_component-ok part token e =
    let lowered = to_ascii_lowercase (trim_ows part) in
    let (_, e) = fail_if-then (is_empty lowered || not (all is_token_byte lowered)) _ _ e in cc

is_http11-true : (version : Http1Version) → not (is_http11 version) ≡ false → version ≡ http11
is_http11-true http10 h = absurd (false≢true (sym h))
is_http11-true http11 h = refl

nonempty-of :
    (message : Text) (values : List Text) (lengths : List ℕ)
    → collected length_component message values ≡ ok lengths
    → is_empty lengths ≡ false
    → is_empty values ≡ false
unfolding collected
nonempty-of message [] lengths e h = let none_there : lengths ≡ [] = cc in rw none_there at h
nonempty-of message (v ∷ vs) lengths e h = refl

-- The framing that the code determines is one that the headers allow: a chunked body needs HTTP/1.1,
-- no `Content-Length` and one `Transfer-Encoding` header that is just `chunked`; a length needs
-- every component of every `Content-Length` to spell it, and no `Transfer-Encoding`.
pub determine_framing-IsFraming :
    (request_method : Text) (version : Http1Version) (status_code : ℕ) (headers : List Http1Header)
    (framing : Http1Framing)
    → determine_framing request_method version status_code headers ≡ ok framing
    → IsFraming request_method version status_code headers framing
unfolding determine_framing parse_content_length parse_transfer_encoding framing_of IsFraming
determine_framing-IsFraming request_method version status_code headers framing e =
    elim (Bool-cases (is_bodiless request_method status_code)) [
      | inl h ↦
          let form : framing ≡ no_body = (let e = rw (determine_framing, h) at e in cc) in rw form h
      | inr h ↦
          let e = rw (determine_framing, h) at e in
          let (length, f, e) = >>=-eq-ok (parse_content_length headers) _ e in
          let (coded, g, e) = >>=-eq-ok (parse_transfer_encoding headers) _ e in
          let (lengths, f, agreed) =
            >>=-eq-ok (collected length_component _ (values_of (text "content-length") headers)) _
              f in
          let (tokens, g, single) =
            >>=-eq-ok (collected coding_component _ (values_of (text "transfer-encoding") headers))
              _ g in
          elim (agreed_length-ok lengths length agreed) [
            | inl (no_lengths, length_form) ↦
                let no_length = collected-nil length_component _ _ (rw no_lengths at f) in
                elim (single_coding-ok tokens coded single) [
                  | inl (no_tokens, coded_form) ↦
                      let no_coding = collected-nil coding_component _ _ (rw no_tokens at g) in
                      let form : framing ≡ connection_close =
                        (let e = rw (length_form, coded_form) at e in cc) in
                      rw form (h, no_coding, no_length)
                  | inr (one_token, coded_form) ↦
                      let (value, one, said) =
                        collected-one coding_component _ _ (text "chunked") (rw one_token at g) in
                      let (current, e) =
                        fail_if-then (not (is_http11 version)) _ _
                          (rw (length_form, coded_form) at e) in
                      let form : framing ≡ chunked = cc in
                      rw form (
                        h,
                        is_http11-true version current,
                        no_length,
                        value,
                        one,
                        coding_component-ok value (text "chunked") said,
                      )
                ]
            | inr (n, length_form, some_there, equal) ↦
                elim (single_coding-ok tokens coded single) [
                  | inl (no_tokens, coded_form) ↦
                      let no_coding = collected-nil coding_component _ _ (rw no_tokens at g) in
                      let (said, small) = collected-says n _ _ lengths f equal in
                      let present = nonempty-of _ _ lengths f some_there in
                      let form : framing ≡ content_length n =
                        (let e = rw (length_form, coded_form) at e in cc) in
                      rw form (h, no_coding, present, said, small present)
                  | inr (_, coded_form) ↦ absurd (let e = rw (length_form, coded_form) at e in cc)
                ]
          ]
    ]
