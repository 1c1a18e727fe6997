-- ===== src/Download/Naming.antt =====
-- The names that models and pictures get (src/engine/download.rs).
use studio_worker.Base.{
  ℕ, true, false, none, some, [], ◌∷◌, ◌++◌, map, ◌==◌, ◌≡◌, refl, ap, arith, if_both,
}
use studio_worker.Base.Chars.{Chars, same_chars, is_alphanumeric, contains_char}
use studio_worker.Download.Names.{
  Folder, segment_char, visible, sanitise_model_dir, is_plain, model_cache_path, at_last_dot,
}

-- No separator stands in a segment, and none of its characters changes again.
segment_char_lem :
    (c : ℕ)
    → ((segment_char c == b'/') ≡ false)
      × ((segment_char c == b'\\') ≡ false)
      × (segment_char (segment_char c) ≡ segment_char c)
unfolding segment_char is_alphanumeric
segment_char_lem c = ground arith

contains_char-map :
    (cs : Chars)
    → (contains_char b'/' (map segment_char cs) ≡ false)
      × (contains_char b'\\' (map segment_char cs) ≡ false)
      × (map segment_char (map segment_char cs) ≡ map segment_char cs)
unfolding contains_char
contains_char-map [] = (refl, refl, refl)
contains_char-map (c ∷ cs) =
    let h = segment_char_lem c in
    let t = contains_char-map cs in (rw (h.0, t.0) refl, rw (h.1, t.1) refl, rw (h.2, t.2) refl)

-- A segment that is one already stays as it is.
abbrev pub IsSegment : Chars → Type 0
IsSegment s = (is_plain s ≡ true) × (visible s ≡ s) × (map segment_char s ≡ s)

cons-IsSegment :
    (c : ℕ) (cs : Chars)
    → (c == b'.') ≡ false
    → contains_char b'/' (c ∷ cs) ≡ false
    → contains_char b'\\' (c ∷ cs) ≡ false
    → map segment_char (c ∷ cs) ≡ c ∷ cs
    → IsSegment (c ∷ cs)
unfolding visible is_plain same_chars
cons-IsSegment c cs dot s b m = (rw (s, b, dot) refl, rw dot refl, m)

visible-IsSegment :
    (cs : Chars)
    → contains_char b'/' cs ≡ false
    → contains_char b'\\' cs ≡ false
    → map segment_char cs ≡ cs
    → IsSegment (visible cs)
unfolding visible is_plain contains_char same_chars segment_char is_alphanumeric
visible-IsSegment [] s b m = (refl, refl, refl)
visible-IsSegment (c ∷ cs) s b m =
    if_both IsSegment (c == b'.') (b'_' ∷ cs) (c ∷ cs)
      (λ _.
        cons-IsSegment b'_' cs refl (ground (arith, s)) (ground (arith, b))
          (ap {B = Chars} (λ r. b'_' ∷ r) (tail_eq m)))
      (λ e. cons-IsSegment c cs e s b m)
  where
    tail_eq : map segment_char (c ∷ cs) ≡ c ∷ cs → map segment_char cs ≡ cs
    tail_eq h = cc

-- Whatever its id, a model's folder is one segment below the models root, never a hidden one, never a
-- step up; and a segment that this gave is given again for itself.
sanitise_model_dir_lem :
    (root : Folder) (model_id : Chars)
    → (model_cache_path root (sanitise_model_dir model_id)
        ≡ some (record { folder = root; name = sanitise_model_dir model_id }))
      × (visible (sanitise_model_dir model_id) ≡ sanitise_model_dir model_id)
      × (sanitise_model_dir (sanitise_model_dir model_id) ≡ sanitise_model_dir model_id)
unfolding sanitise_model_dir model_cache_path
sanitise_model_dir_lem root model_id =
    let m = contains_char-map model_id in
    let s = visible-IsSegment (map segment_char model_id) m.0 m.1 m.2 in
    (rw s.0 refl, s.1, rw s.2 s.1)

-- A name without a dot has none to split at; one behind a dot without another is the extension.
at_last_dot-none : (cs : Chars) → contains_char b'.' cs ≡ false → at_last_dot cs ≡ none
unfolding at_last_dot contains_char
at_last_dot-none [] h = refl
at_last_dot-none (c ∷ cs) h =
    let ih = at_last_dot-none cs (ground (arith, h)) in
    let d : (c == b'.') ≡ false = ground (arith, h) in rw (ih, at_last_dot) (rw d refl)

pub at_last_dot-append :
    (before after : Chars)
    → contains_char b'.' after ≡ false
    → at_last_dot (before ++ (b'.' ∷ after)) ≡ some (before, after)
unfolding at_last_dot
at_last_dot-append [] after h = rw (at_last_dot-none after h, at_last_dot) refl
at_last_dot-append (c ∷ before) after h = rw (at_last_dot-append before after h, at_last_dot) refl
