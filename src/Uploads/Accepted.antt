-- ===== src/Uploads/Accepted.antt =====
-- What an accepted upload is, and what does not matter for it.
use Prim.Native.String.{◌++◌ as str_append}
use Prim.Native.String.append
use rooti_server.Base.{
  ◌≤◌, ◌<◌, ◌≡◌, refl, sym, ap, ◌∙◌, inl, inr, Bool, true, false, ◌&&◌, ◌||◌, some, List, [], ◌∷◌,
  String, str_eq, eq_iff, arith, Bool-cases,
}
use rooti_server.Exec.{ok}
use rooti_server.Text.{strip}
use rooti_server.Security.{Settings}
use rooti_server.Storage.{starts_with}
use rooti_server.Uploads.{
  UploadFile, allowed_document_mime, is_in, is_bad, is_allowed, has_bad, lower, before_semicolon,
  mime_of, size_of, or_empty, replace_bad, cleaned, validate_document_upload,
}

-- What follows a semicolon does not matter.
before_semicolon_params :
    (t params : String)
    → before_semicolon (lower (str_append t (str_append ";" params))) ≡ before_semicolon (lower t)
unfolding before_semicolon lower
before_semicolon_params String.[] params = rw (append.nil, append.cons) refl
before_semicolon_params (String.◌∷◌ c t) params =
    rw (append.cons, before_semicolon_params t params) refl

-- An image, or a document format of an application.
abbrev pub is_document_family : String → Bool
is_document_family mime = starts_with mime "image/" || starts_with mime "application/"

abbrev all_families : List String → Bool
all_families [] = true
all_families (t ∷ ts) = is_document_family t && all_families ts

is_in_family :
    (mime : String) (types : List String)
    → all_families types ≡ true
    → is_in mime types ≡ true
    → is_document_family mime ≡ true
is_in_family mime [] h m = absurd (cc)
is_in_family mime (t ∷ ts) h m = elim (Bool-cases (str_eq mime t)) [
  | inl e ↦ ap is_document_family ((eq_iff mime t).0 e) ∙ ground (arith, h)
  | inr e ↦ is_in_family mime ts (ground (arith, h)) (ground (arith, m, e))
]

listed_families : all_families allowed_document_mime ≡ true
unfolding starts_with
listed_families = refl

allowed-family : (mime : String) → is_allowed mime ≡ true → is_document_family mime ≡ true
unfolding is_allowed
allowed-family mime h = is_in_family mime allowed_document_mime listed_families h

clean_kept : (s : String) → has_bad s ≡ false → replace_bad s ≡ s
unfolding replace_bad
clean_kept String.[] h = refl
clean_kept (String.◌∷◌ c s) h =
    let good : is_bad c ≡ false = ground (arith, h) in
    let rest : has_bad s ≡ false = ground (arith, h) in rw (good, clean_kept s rest) refl

module _ {S : Type 0} ⦃settings : Settings⦄ where
  accepted_guards :
      (file : UploadFile) (s : S)
      → validate_document_upload file s ≡ (ok tt, s)
      → (0 < size_of file)
        × (size_of file ≤ settings.multipart_max_file_bytes)
        × (is_allowed (mime_of file) ≡ true)
        × (has_bad (or_empty file.filename) ≡ false)
  unfolding validate_document_upload
  accepted_guards file s h = (ground arith, ground arith, ground arith, ground arith)

  -- An accepted file is not empty and not over the limit, its type is of the family of images or of
  -- application formats, and cleaning its name does no more than strip it. Parameters after the type
  -- change no outcome, of an accepted file or of any other.
  pub accepted_upload :
      (file other : UploadFile) (name t params : String) (s : S)
      → file.filename ≡ some name
      → other.content_type ≡ some t
      → validate_document_upload file s ≡ (ok tt, s)
      → (0 < size_of file)
        × (size_of file ≤ settings.multipart_max_file_bytes)
        × (is_document_family (mime_of file) ≡ true)
        × (cleaned name ≡ strip name)
        × (validate_document_upload
              (record other { content_type = some (str_append t (str_append ";" params)) })
              s
            ≡ validate_document_upload other s)
  unfolding cleaned mime_of validate_document_upload
  accepted_upload file other name t params s named typed h =
      let (positive, small, listed, clean) = accepted_guards file s h in
      (
        positive,
        small,
        allowed-family (mime_of file) listed,
        ap strip (clean_kept name (ap (λ n. has_bad (or_empty n)) (sym named) ∙ clean)),
        rw (typed, before_semicolon_params t params) refl,
      )
