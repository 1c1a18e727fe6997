-- ===== src/Multipart.antt =====
-- Forms (src/multipart.rs). A body is the list of its bytes, a header the list of its characters.
mod Headers
mod Reading
mod Tests
use studio_worker.Base.{
  ℕ, zero, suc, ◌+◌, Bool, true, false, not, ◌&&◌, ◌||◌, Option, none, some, List, [], ◌∷◌, ◌++◌,
  length, ◌==◌, if◌then◌else◌,
}
use studio_worker.Base.Chars.{Chars, codes, strip_prefix, trim_start, trim, same_ignoring_case}
use studio_worker.Thinking.{split_once, begins_with}

abbrev pub Bytes : Type 0
Bytes = List ℕ

pub record Part : Type 0 where
  pub name : Chars
  pub filename : Option Chars
  pub content_type : Option Chars
  pub content : Bytes

-- `unfinished` is a run that its fuel did not let end.
pub data FormError : Type 0 where
  no_opening : FormError
  unterminated no_header_end no_name header_encoding : ℕ → FormError
  unfinished : FormError

pub data Parsed (A : Type 0) : Type 0 where
  parsed : A → Parsed A
  refused : FormError → Parsed A

abbrev pub crlf : Bytes
crlf = b'\r' ∷ b'\n' ∷ []

-- `trim_start_matches([';', ' ', '\t'])`.
unfoldable pub skip_separators : Chars → Chars
skip_separators [] = []
skip_separators (c ∷ cs) = if c == b';' || c == 0x20 || c == 9 then skip_separators cs else c ∷ cs

-- A quoted value, from behind its opening quote: what it says, and what follows it.
unfoldable pub put_first : ℕ → Chars × Chars → Chars × Chars
put_first c (value, rest) = (c ∷ value, rest)

unfoldable pub quoted : Chars → Chars × Chars
unfolding put_first
quoted [] = ([], [])
quoted (c ∷ []) = if c == b'\\' || c == b'"' then ([], []) else (c ∷ [], [])
quoted (c ∷ (d ∷ cs)) =
    let escaped = put_first d (quoted cs) in
    let plain = put_first c (quoted (d ∷ cs)) in
    if c == b'\\' then escaped else if c == b'"' then ([], d ∷ cs) else plain

-- A value that is not quoted ends at the next `;`, or with the text.
unfoldable pub up_to_end : Chars → Option (Chars × Chars) → Chars × Chars
up_to_end text none = (text, [])
up_to_end text (some (before, rest)) = (before, b';' ∷ rest)

unfoldable pub bare_value : Chars → Chars × Chars
unfolding up_to_end split_once
bare_value text =
    let (value, rest) = up_to_end text (split_once (b';' ∷ []) text) in (trim value, rest)

unfoldable pub value_at : Chars → Chars × Chars
unfolding quoted bare_value
value_at [] = bare_value []
value_at (c ∷ cs) = if c == b'"' then quoted cs else bare_value (c ∷ cs)

-- A round takes a `=`, so the length is fuel enough.
unfoldable pub parameters : ℕ → Chars → List (Chars × Chars)
unfolding split_once value_at skip_separators
parameters zero text = []
parameters (suc fuel) text = elim (split_once (b'=' ∷ []) (skip_separators text)) [
  | none ↦ []
  | some (key, rest) ↦
      let (value, left) = value_at (trim_start rest) in (trim key, value) ∷ parameters fuel left
]

-- What the headers of a part have said so far.
pub record Said : Type 0 where
  pub name : Option Chars
  pub filename : Option Chars
  pub content_type : Option Chars

unfoldable pub take_parameters : List (Chars × Chars) → Said → Said
take_parameters [] s = s
take_parameters ((key, value) ∷ ps) s = take_parameters ps (
    if same_ignoring_case key (codes "name")
    then record s { name = some value }
    else if same_ignoring_case key (codes "filename")
    then record s { filename = some value }
    else s)

unfoldable pub disposition : Option (Chars × Chars) → Said → Said
unfolding take_parameters parameters
disposition none s = s
disposition (some (kind, params)) s =
    if same_ignoring_case (trim kind) (codes "form-data")
    then take_parameters (parameters (length params) params) s
    else s

unfoldable pub header_line : Option (Chars × Chars) → Said → Said
unfolding disposition split_once
header_line none s = s
header_line (some (field, value)) s =
    if same_ignoring_case (trim field) (codes "content-disposition")
    then disposition (split_once (b';' ∷ []) value) s
    else if same_ignoring_case (trim field) (codes "content-type")
    then record s { content_type = some (trim value) }
    else s

-- `headers.split("\r\n")`, a line after the other; a round takes the mark.
unfoldable pub header_lines : ℕ → Chars → Said → Said
unfolding header_line split_once
header_lines zero text s = s
header_lines (suc fuel) text s = elim (split_once crlf text) [
  | none ↦ header_line (split_once (b':' ∷ []) text) s
  | some (line, rest) ↦ header_lines fuel rest (header_line (split_once (b':' ∷ []) line) s)
]

unfoldable pub nothing_said : Said
nothing_said = record { name = none; filename = none; content_type = none }

unfoldable pub named : ℕ → Bytes → Option Chars → Said → Parsed Part
named index content none s = refused (no_name index)
named index content (some name) s = parsed (record {
  name = name;
  filename = s.filename;
  content_type = s.content_type;
  content = content;
})

unfoldable pub part : ℕ → Chars → Bytes → Parsed Part
unfolding header_lines nothing_said named
part index headers content =
    let s = header_lines (suc (length headers)) headers nothing_said in named index content s.name s

unfoldable pub opening : Bytes → Bytes
opening boundary = b'-' ∷ (b'-' ∷ boundary)

unfoldable pub between : Bytes → Bytes
unfolding opening
between boundary = b'\r' ∷ (b'\n' ∷ opening boundary)

-- `decode` is `str::from_utf8`.
module _ (decode : Bytes → Option Chars) (boundary : Bytes) where
  unfoldable pub then_part :
      (Part → Bytes → Parsed (List Part)) → Bytes → Parsed Part → Parsed (List Part)
  then_part go rest (refused e) = refused e
  then_part go rest (parsed p) = go p rest

  unfoldable pub decoded :
      (Part → Bytes → Parsed (List Part)) → ℕ → Bytes → Bytes → Option Chars → Parsed (List Part)
  unfolding then_part part
  decoded go index content rest none = refused (header_encoding index)
  decoded go index content rest (some headers) = then_part go rest (part index headers content)

  unfoldable pub with_data :
      (Part → Bytes → Parsed (List Part)) → ℕ → Bytes → Option (Bytes × Bytes) → Parsed (List Part)
  unfolding decoded
  with_data go index headers none = refused (unterminated index)
  with_data go index headers (some (content, rest)) = decoded go index content rest (decode headers)

  unfoldable pub with_headers :
      (Part → Bytes → Parsed (List Part)) → ℕ → Option (Bytes × Bytes) → Parsed (List Part)
  unfolding with_data split_once between
  with_headers go index none = refused (no_header_end index)
  with_headers go index (some (headers, rest)) =
      with_data go index headers (split_once (between boundary) rest)

  unfoldable pub with_line :
      (Part → Bytes → Parsed (List Part)) → ℕ → Option (Bytes × Bytes) → Parsed (List Part)
  unfolding with_headers split_once
  with_line go index none = refused (unterminated index)
  with_line go index (some (padding, rest)) = with_headers go index (split_once (crlf ++ crlf) rest)

  -- The loop: what stands behind a boundary, and the parts before it.
  unfoldable pub parts_from : ℕ → List Part → Bytes → Parsed (List Part)
  unfolding with_line split_once begins_with
  parts_from zero parts rest = refused unfinished
  parts_from (suc fuel) parts rest =
      let go = λ (p : Part). parts_from fuel (parts ++ p ∷ []) in
      let next = with_line go (suc (length parts)) (split_once crlf rest) in
      if begins_with (b'-' ∷ b'-' ∷ []) rest then parsed parts else next

  unfoldable pub opened : ℕ → Option Bytes → Option (Bytes × Bytes) → Parsed (List Part)
  unfolding parts_from
  opened fuel (some rest) found = parts_from fuel [] rest
  opened fuel none none = refused no_opening
  opened fuel none (some (before, rest)) = parts_from fuel [] rest

  unfoldable pub parse_form : Bytes → Parsed (List Part)
  unfolding opened split_once between opening strip_prefix
  parse_form body =
      opened (suc (length body)) (strip_prefix (opening boundary) body)
        (split_once (between boundary) body)

unfoldable pub named_boundary : List (Chars × Chars) → Option Chars
named_boundary [] = none
named_boundary ((key, value) ∷ ps) =
    if same_ignoring_case key (codes "boundary") then some value else named_boundary ps

unfoldable pub unless_empty : Option Chars → Option Chars
unless_empty none = none
unless_empty (some []) = none
unless_empty (some (c ∷ cs)) = some (c ∷ cs)

-- The boundary that a content type names.
unfoldable pub boundary_of : Chars → Option Chars
unfolding split_once parameters named_boundary unless_empty
boundary_of content_type = elim (split_once (b';' ∷ []) content_type) [
  | none ↦ none
  | some (kind, params) ↦
      if same_ignoring_case (trim kind) (codes "multipart/form-data")
      then unless_empty (named_boundary (parameters (length params) params))
      else none
]
