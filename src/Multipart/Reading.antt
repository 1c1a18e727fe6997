-- ===== src/Multipart/Reading.antt =====
-- A form that is written is read back (src/multipart.rs).
use studio_worker.Base.{
  ℕ, zero, suc, ◌≤◌, ◌<◌, Option, some, List, [], ◌∷◌, ◌++◌, length, length-append, All, ◌≡◌, refl,
  sym, ap, subst, ◌∙◌, arith, append_assoc, append-nil,
}
use studio_worker.Base.Chars.{Chars, strip_prefix}
use studio_worker.Thinking.{split_once, here_or, begins_with}
use studio_worker.Thinking.Laws.{strip_prefix-append_self, split_once-append}
use studio_worker.Multipart.{
  Bytes, Part, Parsed, parsed, crlf, opening, between, then_part, decoded, with_data, with_headers,
  with_line, parts_from, opened, parse_form,
}
use studio_worker.Multipart.Headers.{
  split_once-clean, IsPlainName, header_of, field, no_line_end, part-header_of,
}

module _ (decode : Bytes → Option Chars) (boundary : Bytes) where
  -- A field that can be written: its header decodes as the characters of
  -- its own bytes, and its content does not hold the boundary.
  abbrev pub IsField : Chars × Bytes → Type 0
  IsField (name, content) =
      IsPlainName name
      × (decode (header_of name) ≡ some (header_of name))
      × (split_once (between boundary) (content ++ between boundary) ≡ some (content, []))

  -- What stands behind a boundary: the fields, each up to the next boundary, and the end.
  abbrev pub written : List (Chars × Bytes) → Bytes
  written [] = b'-' ∷ (b'-' ∷ [])
  written ((name, content) ∷ fields) =
      b'\r'
      ∷ (b'\n'
          ∷ (header_of name
              ++ (b'\r'
                  ∷ ((b'\n' ∷ (b'\r' ∷ (b'\n' ∷ [])))
                      ++ (content ++ (between boundary ++ written fields))))))

  abbrev pub fields_of : List (Chars × Bytes) → List Part
  fields_of [] = []
  fields_of ((name, content) ∷ fields) = field name content ∷ fields_of fields

  adds : ℕ → List Part → Part → Bytes → Parsed (List Part)
  adds fuel parts p = parts_from decode boundary fuel (parts ++ p ∷ [])

  -- A round, from behind the end of the boundary's line.
  one_round :
      (fuel : ℕ) (parts : List Part) (rest : Bytes)
      → parts_from decode boundary (suc fuel) parts (b'\r' ∷ (b'\n' ∷ rest))
        ≡ with_headers decode boundary
            (adds fuel parts)
            (suc (length parts))
            (split_once (crlf ++ crlf) rest)
  unfolding parts_from adds with_line strip_prefix here_or
  one_round fuel parts rest = refl

  content_split :
      (content rest : Bytes)
      → split_once (between boundary) (content ++ between boundary) ≡ some (content, [])
      → split_once (between boundary) (content ++ (between boundary ++ rest)) ≡ some (content, rest)
  unfolding between opening
  content_split content rest h =
      subst (λ s. split_once (between boundary) s ≡ some (content, rest))
        (append_assoc content (between boundary) rest)
        (split_once-append b'\r' (b'\n' ∷ (b'-' ∷ (b'-' ∷ boundary))) (content ++ between boundary)
          rest h)

  read_part :
      (go : Part → Bytes → Parsed (List Part)) (index : ℕ) (name : Chars) (content rest : Bytes)
      → IsPlainName name
      → decode (header_of name) ≡ some (header_of name)
      → split_once (between boundary) (content ++ between boundary) ≡ some (content, [])
      → with_headers decode boundary go index
          (some (header_of name, content ++ (between boundary ++ rest)))
        ≡ go (field name content) rest
  unfolding with_headers with_data decoded then_part
  read_part go index name content rest plain text fits =
      rw (content_split content rest fits, with_data)
        (rw (text, decoded) (rw (part-header_of index name content plain, then_part) refl))

  parts_from-written :
      (fields : List (Chars × Bytes)) (fuel : ℕ) (parts : List Part)
      → length fields < fuel
      → All IsField fields
      → parts_from decode boundary fuel parts (written fields) ≡ parsed (parts ++ fields_of fields)
  unfolding parts_from adds
  parts_from-written fields zero parts h f = absurd (omega (arith, h))
  parts_from-written [] (suc fuel) parts h f =
      unfold begins_with strip_prefix in ap parsed (sym (append-nil parts))
  parts_from-written ((name, content) ∷ fields) (suc fuel) parts h ((plain, text, fits), f) =
      let index = suc (length parts) in
      let rest = written fields in
      let tail = content ++ (between boundary ++ rest) in
      let go = adds fuel parts in
      let headers =
        split_once-clean b'\r' (b'\n' ∷ (b'\r' ∷ (b'\n' ∷ []))) (header_of name) tail
          (no_line_end name plain) in
      one_round fuel parts (header_of name ++ (b'\r' ∷ ((b'\n' ∷ (b'\r' ∷ (b'\n' ∷ []))) ++ tail)))
      ∙ ap (with_headers decode boundary go index) headers
      ∙ read_part go index name content rest plain text fits
      ∙ parts_from-written fields fuel (parts ++ field name content ∷ []) (omega (arith, h)) f
      ∙ ap parsed (append_assoc parts (field name content ∷ []) (fields_of fields))

  length-written : (fields : List (Chars × Bytes)) → length fields ≤ length (written fields)
  length-written [] = omega arith
  length-written ((name, content) ∷ fields) =
      let rest = written fields in
      let tail = content ++ (between boundary ++ rest) in
      let start = name ++ (b'"' ∷ []) in
      omega (
        arith,
        length-written fields,
        length-append (between boundary) rest,
        length-append content (between boundary ++ rest),
        length-append start (b'\r' ∷ (b'\n' ∷ (b'\r' ∷ (b'\n' ∷ tail)))),
      )

-- Fields whose names need no escape, whose headers `decode` reads as the characters of their own bytes
-- (with `from_utf8`: ASCII names) and whose contents do not hold the boundary, written as a form, are read
-- back, all of them and in order.
pub parse_form-written :
    (decode : Bytes → Option Chars) (boundary : Bytes) (fields : List (Chars × Bytes))
    → All (IsField decode boundary) fields
    → parse_form decode boundary (opening boundary ++ written decode boundary fields)
      ≡ parsed (fields_of decode boundary fields)
unfolding parse_form opened
parse_form-written decode boundary fields f =
    let rest = written decode boundary fields in
    let body = opening boundary ++ rest in
    let q : parse_form decode boundary body
        ≡ parts_from decode boundary (suc (length body)) [] rest =
      rw (strip_prefix-append_self (opening boundary) rest, opened) refl in
    q
    ∙ parts_from-written decode boundary fields (suc (length body)) []
        (omega
          (arith, length-written decode boundary fields, length-append (opening boundary) rest))
        f
