-- ===== src/Http1/Request/Wire.antt =====
-- crates/nxb-http1/src/codec.rs: the head of a request is the lines that were meant, and no more.
use bound_seal.Http1.Model.{Http1Header, Http1Request}
use bound_seal.Vault.Types.{MaterializedHeader}
use bound_seal.Std.Text.Excluding.{contains_byte-append}
use bound_seal.Http1.Request.{append_header}
use mathlib.Core.Bool.{false≢true}
use bound_seal.Http1.Fields.{crlf, find_double_crlf}
use bound_seal.Std.Text.Bytes.{find_window}
use bound_seal.Std.Text.{to_ascii_lowercase, decimal, text, Text, contains_byte}
use mathlib.Core.List.{append_assoc}
use bound_seal.Common.{
  map, length-append, all-append, ◌∙◌, sym, suc, List, length, false, is_empty, ap, arith, Bool,
  ◌==◌, all, ◌&&◌, some, not, ◌+◌, ◌∷◌, true, ◌++◌, [], ℕ, ◌≡◌, refl,
}

-- A line that ends nothing: it has bytes, and no CR.
abbrev pub is_line : Text → Bool
is_line l = not (is_empty l) && not (contains_byte 13 l)

-- Lines with their CRLFs.
unfoldable pub unlines : List Text → Text
unlines [] = []
unlines (l ∷ ls) = l ++ 13 ∷ 10 ∷ unlines ls

-- The first blank line of a text stands behind its lines.
find_double-line :
    (l behind : Text)
    → contains_byte 13 l ≡ false
    → find_window (13 ∷ 10 ∷ 13 ∷ 10 ∷ []) (l ++ 13 ∷ 10 ∷ 13 ∷ 10 ∷ behind) ≡ some (length l)
unfolding find_window
find_double-line [] behind h = refl
find_double-line (c ∷ l) behind h =
    let other : (13 == c) ≡ false = ground arith in
    let clean : contains_byte 13 l ≡ false = ground arith in
    rw (other, find_double-line l behind clean) refl

find_double-onward :
    (l : Text) (c : ℕ) (more : Text) {n : ℕ}
    → contains_byte 13 l ≡ false
    → (13 == c) ≡ false
    → find_window (13 ∷ 10 ∷ 13 ∷ 10 ∷ []) (c ∷ more) ≡ some n
    → find_window (13 ∷ 10 ∷ 13 ∷ 10 ∷ []) (l ++ 13 ∷ 10 ∷ c ∷ more) ≡ some (length l + 2 + n)
unfolding find_window
find_double-onward [] c more {n} h other e =
    let shift : suc (suc n) ≡ 0 + 2 + n = omega arith in
    rw (find_window, other) (rw (rw (find_window, other) at e) (ap some shift))
find_double-onward (d ∷ l) c more {n} h other e =
    let here : (13 == d) ≡ false = ground arith in
    let clean : contains_byte 13 l ≡ false = ground arith in
    let shift : suc (length l + 2 + n) ≡ suc (length l) + 2 + n = omega arith in
    rw (here, find_double-onward l c more clean other e) (ap some shift)

find_double-unlines :
    (l : Text) (ls : List Text) (body : Text)
    → all is_line (l ∷ ls) ≡ true
    → (n : ℕ) × (find_window (13 ∷ 10 ∷ 13 ∷ 10 ∷ []) (unlines (l ∷ ls) ++ 13 ∷ 10 ∷ body) ≡ some n)
      × (n + 2 ≡ length (unlines (l ∷ ls)))
unfolding unlines
find_double-unlines l [] body h =
    let clean : contains_byte 13 l ≡ false = ground arith in
    let size = length-append l (13 ∷ 10 ∷ []) in
    (
      length l,
      rw (append_assoc l (13 ∷ 10 ∷ []) (13 ∷ 10 ∷ body)) (find_double-line l body clean),
      omega arith,
    )
find_double-unlines l ([] ∷ ls) body h = absurd (false≢true (ground arith))
find_double-unlines l ((c ∷ k) ∷ ls) body h =
    let clean : contains_byte 13 l ≡ false = ground arith in
    let other : (13 == c) ≡ false = ground arith in
    let rest : all is_line ((c ∷ k) ∷ ls) ≡ true = ground arith in
    let (n, found, size) = find_double-unlines (c ∷ k) ls body rest in
    let whole = length-append l (13 ∷ 10 ∷ unlines ((c ∷ k) ∷ ls)) in
    (
      length l + 2 + n,
      rw (append_assoc l (13 ∷ 10 ∷ unlines ((c ∷ k) ∷ ls)) (13 ∷ 10 ∷ body))
          (find_double-onward l c _ clean other found),
      omega arith,
    )

pub find_double_crlf-unlines :
    (l : Text) (ls : List Text) (body : Text)
    → all is_line (l ∷ ls) ≡ true
    → find_double_crlf (unlines (l ∷ ls) ++ 13 ∷ 10 ∷ body) ≡ some (length (unlines (l ∷ ls)) + 2)
unfolding find_double_crlf
find_double_crlf-unlines l ls body h =
    let (n, found, size) = find_double-unlines l ls body h in
    let whole : n + 4 ≡ length (unlines (l ∷ ls)) + 2 = omega arith in rw found (ap some whole)

unlines-append : (ls : List Text) (l : Text) → unlines (ls ++ l ∷ []) ≡ unlines ls ++ (l ++ crlf)
unfolding unlines
unlines-append [] l = refl
unlines-append (k ∷ ls) l =
    rw (unlines-append ls l) (sym (append_assoc k (13 ∷ 10 ∷ unlines ls) (l ++ crlf)))

-- An output that is these lines.
pub record IsHead (ls : List Text) (output : Text) : Type 0 where
  pub form : output ≡ unlines ls
  pub lines : all is_line ls ≡ true

pub append_line-IsHead :
    {ls : List Text} (output l : Text)
    → is_line l ≡ true
    → IsHead ls output
    → IsHead (ls ++ l ∷ []) (output ++ (l ++ crlf))
append_line-IsHead {ls} output l h k = record {
  form = ap (λ x. x ++ (l ++ crlf)) k.form ∙ sym (unlines-append ls l);
  lines = ground (arith, all-append is_line ls (l ∷ []), k.lines);
}

pub is_line-append :
    (s t : Text) → is_line s ≡ true → contains_byte 13 t ≡ false → is_line (s ++ t) ≡ true
is_line-append [] t h k = absurd (false≢true h)
is_line-append (c ∷ s) t h k =
    let clean : contains_byte 13 (c ∷ s) ≡ false = ground arith in
    let whole = contains_byte-append 13 (c ∷ s) t clean k in ground arith

-- A header's line.
abbrev pub header_line : Text → Text → Text
header_line name value = name ++ text ": " ++ value

pub header-is_line :
    (name value : Text)
    → is_line name ≡ true
    → contains_byte 13 value ≡ false
    → is_line (header_line name value) ≡ true
unfolding text
header-is_line name value named clean =
    is_line-append (name ++ text ": ") value (is_line-append name (text ": ") named refl) clean

pub append_header-IsHead :
    {ls : List Text} (output name value : Text)
    → is_line name ≡ true
    → contains_byte 13 value ≡ false
    → IsHead ls output
    → IsHead (ls ++ header_line name value ∷ []) (append_header output name value)
unfolding append_header
append_header-IsHead output name value named clean k =
    rw
      (
        append_assoc output name (text ": "),
        append_assoc output (name ++ text ": ") value,
        append_assoc output (name ++ text ": " ++ value) crlf,
      )
      (append_line-IsHead output (header_line name value) (header-is_line name value named clean) k)

-- The lines that a request is meant to have before its blank line.
abbrev pub request_line : Http1Request → Text
request_line request = request.method ++ b' ' ∷ (request.target ++ text " HTTP/1.1")

abbrev pub host_line : Text → Text
host_line authority = text "Host: " ++ authority

abbrev pub public_line : Http1Header → Text
public_line header = header_line (to_ascii_lowercase header.name) header.value

abbrev pub secret_header_line : MaterializedHeader → Text
secret_header_line header = header_line header.wire_name header.value

abbrev pub header_lines : Http1Request → Text → List MaterializedHeader → List Text
header_lines request authority secrets =
    host_line authority ∷ map public_line request.headers
    ++ map secret_header_line secrets
    ++ header_line (text "Content-Length") (decimal (length request.body))
      ∷ header_line (text "Connection") (text "close")
      ∷ []
