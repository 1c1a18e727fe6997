-- ===== src/Download/Pictures.antt =====
-- A picture gets the name that its bytes ask for (src/engine/download.rs).
use studio_worker.Base.{
  Bool, true, false, ◌||◌, Option, none, some, [], ◌∷◌, take, ◌≡◌, ◌≢◌, refl, sym, ap, subst, ◌∙◌,
  if_both,
}
use studio_worker.Base.Chars.{Chars, codes, same_chars_refl, contains_char, lower}
use studio_worker.Download.Names.{
  FilePath, same_path_iff, at_last_dot, stem_of, extension_of, extension, with_extension,
}
use studio_worker.Download.Naming.{at_last_dot-append}
use studio_worker.Download.Fetch.{Bytes, Store, put_file}
use studio_worker.Download.Inputs.{
  begins_so, is_webp, sniff_image_extension, fits_extension, lower_extension, by_content,
  ensure_correct_image_extension,
}

-- The formats' extensions are in lower case and have no dot.
abbrev IsFormat : Option Chars → Type 0
IsFormat none = Unit
IsFormat (some e) = (contains_char b'.' e ≡ false) × (lower e ≡ e)

sniff_image_extension-IsFormat : (bytes : Bytes) → IsFormat (sniff_image_extension bytes)
unfolding sniff_image_extension contains_char lower
sniff_image_extension-IsFormat bytes =
    if_both IsFormat (begins_so (0xff ∷ 0xd8 ∷ 0xff ∷ []) bytes) _ _ (λ _. (refl, refl))
      (λ _.
        if_both IsFormat
          (begins_so (0x89 ∷ b'P' ∷ b'N' ∷ b'G' ∷ 0x0d ∷ 0x0a ∷ 0x1a ∷ 0x0a ∷ []) bytes) _ _
          (λ _. (refl, refl))
          (λ _.
            if_both IsFormat (is_webp bytes) _ _ (λ _. (refl, refl))
              (λ _.
                if_both IsFormat
                  (begins_so (codes "GIF87a") bytes || begins_so (codes "GIF89a") bytes) _ _
                  (λ _. (refl, refl))
                  (λ _.
                    if_both IsFormat (begins_so (codes "BM") bytes) _ _ (λ _. (refl, refl))
                      (λ _.
                        if_both IsFormat
                          (begins_so (0x49 ∷ 0x49 ∷ 0x2a ∷ 0x00 ∷ []) bytes
                            || begins_so (0x4d ∷ 0x4d ∷ 0x00 ∷ 0x2a ∷ []) bytes)
                          _ _ (λ _. (refl, refl)) (λ _. tt))))))

extension_of-cons : (s after : Chars) → s ≢ [] → extension_of (some (s, after)) ≡ some after
unfolding extension_of
extension_of-cons [] after h = absurd (h refl)
extension_of-cons (c ∷ cs) after h = refl

stem_of-ne : (name : Chars) (o : Option (Chars × Chars)) → name ≢ [] → stem_of name o ≢ []
unfolding stem_of
stem_of-ne name none h = h
stem_of-ne name (some ([], after)) h = h
stem_of-ne name (some (c ∷ before, after)) h = λ e. cc

extension-with_extension :
    (e : Chars) (p : FilePath)
    → p.name ≢ []
    → contains_char b'.' e ≡ false
    → extension (with_extension e p) ≡ some e
unfolding extension with_extension
extension-with_extension e p h d =
    let s = stem_of p.name (at_last_dot p.name) in
    ap extension_of (at_last_dot-append s e d)
    ∙ extension_of-cons s e (stem_of-ne p.name (at_last_dot p.name) h)

fits_self :
    (e : Chars) (o : Option Chars)
    → o ≡ some e
    → lower e ≡ e
    → fits_extension e (lower_extension o) ≡ true
unfolding fits_extension lower_extension
fits_self e o h l = rw (h, lower_extension) (rw (l, same_chars_refl e) refl)

-- The name of a picture suits the format that was sniffed.
abbrev Suits : Option Chars → FilePath → Type 0
Suits none p = Unit
Suits (some e) p = fits_extension e (lower_extension (extension p)) ≡ true

-- The bytes stand at the path that is given, whose name suits them, and asking again changes nothing;
-- an error changes nothing either.
abbrev pub IsCorrected : Bool → Bool → Bytes → Store → Store × Option FilePath → Type 0
IsCorrected open_fails rename_fails content before (after, none) = after ≡ before
IsCorrected open_fails rename_fails content before (after, some p) =
    (after p ≡ some content)
    × Suits (sniff_image_extension (take 16 content)) p
    × (ensure_correct_image_extension open_fails rename_fails p after ≡ (after, some p))

module _ (rename_fails : Bool) (content : Bytes) where
  abbrev Done : Store → Store × Option FilePath → Type 0
  Done before r = IsCorrected false rename_fails content before r

  again_lem :
      (p : FilePath) (store : Store) (o : Option Chars)
      → Suits o p
      → by_content false rename_fails p content o store ≡ (store, some p)
  unfolding by_content
  again_lem p store none h = refl
  again_lem p store (some e) h = rw h refl

  settled_lem :
      (before store : Store) (p : FilePath)
      → store p ≡ some content
      → Suits (sniff_image_extension (take 16 content)) p
      → Done before (store, some p)
  unfolding ensure_correct_image_extension
  settled_lem before store p there suits = (
    there,
    suits,
    rw (there, ensure_correct_image_extension)
        (again_lem p store (sniff_image_extension (take 16 content)) suits),
  )

  by_content-IsCorrected :
      (path : FilePath) (store : Store) (o : Option Chars)
      → store path ≡ some content
      → path.name ≢ []
      → sniff_image_extension (take 16 content) ≡ o
      → IsFormat o
      → Done store (by_content false rename_fails path content o store)
  unfolding by_content put_file
  by_content-IsCorrected path store none there name e f =
      settled_lem store store path there (subst (λ s. Suits s path) (sym e) tt)
  by_content-IsCorrected path store (some x) there name e f =
      if_both (Done store) (fits_extension x (lower_extension (extension path))) _ _
        (λ fits. settled_lem store store path there (subst (λ s. Suits s path) (sym e) fits))
        (λ _.
          if_both (Done store) rename_fails _ _ (λ _. refl)
            (λ _.
              let p = with_extension x path in
              settled_lem store (put_file p (some content) (put_file path none store)) p
                (rw ((same_path_iff p p).1 refl) refl)
                (subst (λ s. Suits s p) (sym e)
                  (fits_self x (extension p) (extension-with_extension x path name f.0) f.1))))

-- The bytes of a picture that is there come to stand, or stay, at the path that is given; its name
-- suits the format in its first sixteen bytes, if they show one; and asking again changes nothing. An
-- error has changed nothing.
pub ensure_correct_image_extension-IsCorrected :
    (open_fails rename_fails : Bool) (path : FilePath) (content : Bytes) (store : Store)
    → store path ≡ some content
    → path.name ≢ []
    → IsCorrected open_fails rename_fails content store
        (ensure_correct_image_extension open_fails rename_fails path store)
unfolding ensure_correct_image_extension
ensure_correct_image_extension-IsCorrected true rename_fails path content store there name =
    rw (there, ensure_correct_image_extension) refl
ensure_correct_image_extension-IsCorrected false rename_fails path content store there name =
    let o = sniff_image_extension (take 16 content) in
    let q : ensure_correct_image_extension false rename_fails path store
        ≡ by_content false rename_fails path content o store =
      rw (there, ensure_correct_image_extension) refl in
    subst (IsCorrected false rename_fails content store) (sym q) (
      by_content-IsCorrected rename_fails content path store o there name refl
        (sniff_image_extension-IsFormat (take 16 content)))
