-- ===== src/Uploads.antt =====
-- app/core/upload_validation.py: the checks of an uploaded file and the cleaning of its name. Of
-- `str.lower` the ASCII letters are modelled; no other character becomes part of an allowed type.
pub mod Filename
pub mod Accepted
mod Tests
use Prim.Native.Char.{Char, code}
use rooti_server.Base.{
  ℕ, zero, suc, ◌-◌, Bool, true, false, not, ◌&&◌, ◌||◌, Option, none, some, List, [], ◌∷◌, String,
  str_eq, leb, ltb, ◌==◌, if◌then◌else◌,
}
use rooti_server.Errors.{Exn, business, invalid_input, storage_file_too_large}
use rooti_server.Exec.{Exec, pure, raise_if, ◌>>◌}
use rooti_server.Security.{Settings}
use rooti_server.Text.{truthy, strip, str_take}
use rooti_server.Text.Strip.{any_char}

pub record UploadFile : Type 0 where
  pub filename : Option String
  pub size : Option ℕ
  pub content_type : Option String

abbrev pub allowed_document_mime : List String
allowed_document_mime =
    "image/jpeg" ∷ "image/png" ∷ "image/webp" ∷ "image/heic" ∷ "image/heif" ∷ "application/pdf"
    ∷ "application/x-hwp" ∷ "application/haansofthwp" ∷ "application/vnd.hancom.hwp"
    ∷ "application/vnd.openxmlformats-officedocument.wordprocessingml.document"
    ∷ "application/vnd.openxmlformats-officedocument.spreadsheetml.sheet" ∷ "application/msword"
    ∷ "application/vnd.ms-excel" ∷ []

abbrev pub is_in : String → List String → Bool
is_in s [] = false
is_in s (t ∷ ts) = str_eq s t || is_in s ts

-- `[\x00-\x1f/\\]`
abbrev pub is_bad : Char → Bool
is_bad c = leb (code c) 31 || code c == 47 || code c == 92

-- `_BAD_FILENAME_CHARS.search(s)`
abbrev pub has_bad : String → Bool
has_bad s = any_char is_bad s

-- `_BAD_FILENAME_CHARS.sub("_", s)`
unfoldable pub replace_bad : String → String
replace_bad String.[] = String.[]
replace_bad (String.◌∷◌ c s) = String.◌∷◌ (if is_bad c then "_" else c) (replace_bad s)

-- `set(s) <= {"."}`
abbrev pub only_dots : String → Bool
only_dots String.[] = true
only_dots (String.◌∷◌ c s) = code c == 46 && only_dots s

unfoldable pub cleaned : String → String
cleaned name = strip (replace_bad name)

unfoldable pub sanitize_filename : Option String → String
sanitize_filename none = "upload"
sanitize_filename (some name) =
    if not (truthy name)
    then "upload"
    else if not (truthy (cleaned name)) || only_dots (cleaned name)
    then "upload"
    else str_take 255 (cleaned name)

abbrev pub letter_at : ℕ → String → Char → Char
letter_at n String.[] other = other
letter_at zero (String.◌∷◌ c s) other = c
letter_at (suc n) (String.◌∷◌ c s) other = letter_at n s other

unfoldable pub lower : String → String
lower String.[] = String.[]
lower (String.◌∷◌ c s) =
    String.◌∷◌
      (if leb 65 (code c) && leb (code c) 90
        then letter_at (code c - 65) "abcdefghijklmnopqrstuvwxyz" c
        else c)
      (lower s)

-- `s.split(";", 1)[0]`
unfoldable pub before_semicolon : String → String
before_semicolon String.[] = String.[]
before_semicolon (String.◌∷◌ c s) =
    let rest = before_semicolon s in if code c == 59 then String.[] else String.◌∷◌ c rest

abbrev pub or_empty : Option String → String
or_empty none = ""
or_empty (some s) = s

unfoldable pub mime_of : UploadFile → String
mime_of file = strip (before_semicolon (lower (or_empty file.content_type)))

unfoldable pub is_allowed : String → Bool
is_allowed mime = is_in mime allowed_document_mime

abbrev pub size_of : UploadFile → ℕ
size_of file = elim file.size [ none ↦ 0 | some n ↦ n ]

unfoldable pub validate_document_upload :
    {S : Type 0} ⦃settings : Settings⦄ → UploadFile → Exec S (Unit {0})
validate_document_upload ⦃settings⦄ file = do
  raise_if (leb (size_of file) 0) (business invalid_input)
  raise_if (ltb settings.multipart_max_file_bytes (size_of file)) (business storage_file_too_large)
  raise_if (not (is_allowed (mime_of file))) (business invalid_input)
  raise_if (has_bad (or_empty file.filename)) (business invalid_input)
