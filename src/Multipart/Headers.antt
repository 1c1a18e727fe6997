-- ===== src/Multipart/Headers.antt =====
-- The header of a form's field is read back (src/multipart.rs).
use studio_worker.Base.{
  ℕ, suc, false, none, some, [], ◌∷◌, ◌++◌, length, ◌==◌, ◌≡◌, refl, ap, ◌∙◌, arith,
}
use studio_worker.Base.Chars.{
  Chars, codes, strip_prefix, trim_start, trim_end, trim, same_chars, same_ignoring_case,
  contains_char, is_whitespace, to_lower,
}
use studio_worker.Thinking.{split_once, here_or, one_later}
use studio_worker.Thinking.Laws.{strip_prefix-append_self}
use studio_worker.Multipart.{
  Bytes, Part, parsed, skip_separators, put_first, quoted, value_at, parameters, Said,
  take_parameters, disposition, header_line, header_lines, nothing_said, named, part,
}

-- A mark stands first where a text without its first character ends.
pub split_once-clean :
    (m : ℕ) (ms s rest : Chars)
    → contains_char m s ≡ false
    → split_once (m ∷ ms) (s ++ (m ∷ (ms ++ rest))) ≡ some (s, rest)
unfolding split_once here_or one_later contains_char
split_once-clean m ms [] rest h = rw (strip_prefix-append_self (m ∷ ms) rest, here_or) refl
split_once-clean m ms (c ∷ cs) rest h =
    let e : (m == c) ≡ false = ground (arith, h) in
    let n : strip_prefix (m ∷ ms) (c ∷ (cs ++ (m ∷ (ms ++ rest)))) ≡ none =
      unfold strip_prefix in rw e refl in
    rw (n, split_once-clean m ms cs rest (ground (arith, h))) refl

split_once-none : (m : ℕ) (ms s : Chars) → contains_char m s ≡ false → split_once (m ∷ ms) s ≡ none
unfolding split_once here_or one_later contains_char
split_once-none m ms [] h = unfold strip_prefix in refl
split_once-none m ms (c ∷ cs) h =
    let e : (m == c) ≡ false = ground (arith, h) in
    let n : strip_prefix (m ∷ ms) (c ∷ cs) ≡ none = unfold strip_prefix in rw e refl in
    rw (n, split_once-none m ms cs (ground (arith, h))) refl

contains_char-append :
    (d : ℕ) (s t : Chars)
    → contains_char d s ≡ false
    → contains_char d t ≡ false
    → contains_char d (s ++ t) ≡ false
unfolding contains_char
contains_char-append d [] t p q = q
contains_char-append d (c ∷ cs) t p q =
    let e : (c == d) ≡ false = ground (arith, p) in
    rw (e, contains_char-append d cs t (ground (arith, p)) q) refl

-- A name that needs no escape.
abbrev pub IsPlainName : Chars → Type 0
IsPlainName name =
    (contains_char b'\r' name ≡ false)
    × (contains_char b'\\' name ≡ false)
    × (contains_char b'"' name ≡ false)

quoted-plain :
    (name : Chars)
    → contains_char b'\\' name ≡ false
    → contains_char b'"' name ≡ false
    → quoted (name ++ (b'"' ∷ [])) ≡ (name, [])
unfolding quoted put_first contains_char
quoted-plain [] p q = refl
quoted-plain (c ∷ []) p q =
    let a : (c == b'\\') ≡ false = ground (arith, p) in
    let b : (c == b'"') ≡ false = ground (arith, q) in rw (a, b) refl
quoted-plain (c ∷ (d ∷ cs)) p q =
    let a : (c == b'\\') ≡ false = ground (arith, p) in
    let b : (c == b'"') ≡ false = ground (arith, q) in
    rw (a, b, quoted-plain (d ∷ cs) (ground (arith, p)) (ground (arith, q))) refl

-- The header of a field.
abbrev pub header_of : Chars → Chars
header_of name = codes "Content-Disposition: form-data; name=\"" ++ (name ++ (b'"' ∷ []))

abbrev pub field : Chars → Bytes → Part
field name content = record { name = name; filename = none; content_type = none; content = content }

abbrev params_of : Chars → Chars
params_of name = codes " name=\"" ++ (name ++ (b'"' ∷ []))

parameters-params_of :
    (name : Chars)
    → IsPlainName name
    → parameters (length (params_of name)) (params_of name) ≡ (codes "name", name) ∷ []
unfolding parameters value_at skip_separators split_once here_or one_later strip_prefix trim
    trim_start trim_end is_whitespace
parameters-params_of name (r, e, q) = rw (quoted-plain name e q) refl

field_split :
    (name : Chars)
    → split_once (b':' ∷ []) (header_of name)
      ≡ some (codes "Content-Disposition", codes " form-data;" ++ params_of name)
unfolding split_once here_or one_later strip_prefix
field_split name = refl

kind_split :
    (name : Chars)
    → split_once (b';' ∷ []) (codes " form-data;" ++ params_of name)
      ≡ some (codes " form-data", params_of name)
unfolding split_once here_or one_later strip_prefix
kind_split name = refl

disposition-params_of :
    (name : Chars) (s : Said)
    → IsPlainName name
    → disposition (some (codes " form-data", params_of name)) s ≡ record s { name = some name }
unfolding disposition take_parameters trim trim_start trim_end is_whitespace same_ignoring_case
    same_chars to_lower
disposition-params_of name s h = rw (parameters-params_of name h, take_parameters) refl

header_line-header_of :
    (name : Chars) (s : Said)
    → IsPlainName name
    → header_line (split_once (b':' ∷ []) (header_of name)) s ≡ record s { name = some name }
unfolding header_line trim trim_start trim_end is_whitespace same_ignoring_case same_chars to_lower
header_line-header_of name s h =
    rw (field_split name, header_line)
      (ap (λ o. disposition o s) (kind_split name) ∙ disposition-params_of name s h)

pub no_line_end : (name : Chars) → IsPlainName name → contains_char b'\r' (header_of name) ≡ false
unfolding contains_char
no_line_end name h = contains_char-append b'\r' name (b'"' ∷ []) h.0 refl

pub part-header_of :
    (index : ℕ) (name : Chars) (content : Bytes)
    → IsPlainName name
    → part index (header_of name) content ≡ parsed (field name content)
unfolding part header_lines nothing_said named
part-header_of index name content h =
    let one = split_once-none b'\r' (b'\n' ∷ []) (header_of name) (no_line_end name h) in
    let line = header_line-header_of name nothing_said h in
    let s : header_lines (suc (length (header_of name))) (header_of name) nothing_said
        ≡ record nothing_said { name = some name } =
      rw (one, header_lines) line in
    ap (λ z. named index content z.name z) s
