-- ===== src/Uploads/Tests.antt =====
-- The theorems on uploads for one file, and the inputs of the repository's tests.
use Prim.Native.String.{◌++◌ as str_append}
use rooti_server.Base.{ℕ, ◌≤◌, ◌<◌, ◌≡◌, refl, true, some}
use rooti_server.Exec.{ok}
use rooti_server.Text.{strip}
use rooti_server.Uploads.{
  UploadFile, is_allowed, mime_of, lower, before_semicolon, cleaned, replace_bad, sanitize_filename,
  validate_document_upload,
}
use rooti_server.Uploads.Filename.{IsSafe, sanitize_filename-IsSafe}
use rooti_server.Uploads.Accepted.{is_document_family, accepted_upload}
use rooti_server.Samples.{settings}

abbrev scan : UploadFile
scan = record {
  filename = some "a.pdf";
  size = some 100;
  content_type = some "Application/PDF; q=1";
}

abbrev page : UploadFile
page = record { filename = some "a.html"; size = some 100; content_type = some "text/html" }

scan_accepted : validate_document_upload {S = ℕ} scan 0 ≡ (ok tt, 0)
unfolding validate_document_upload is_allowed mime_of before_semicolon lower strip
scan_accepted = refl

traversal_cleaned : sanitize_filename (some "../../etc/passwd") ≡ ".._.._etc_passwd"
unfolding sanitize_filename cleaned replace_bad strip
traversal_cleaned = refl

sanitize_filename-IsSafe_example : IsSafe (sanitize_filename (some "../../etc/passwd"))
sanitize_filename-IsSafe_example = sanitize_filename-IsSafe (some "../../etc/passwd")

accepted_upload_example :
    (0 < 100)
    × (100 ≤ 52428800)
    × (is_document_family (mime_of scan) ≡ true)
    × (cleaned "a.pdf" ≡ strip "a.pdf")
    × (validate_document_upload {S = ℕ}
          (record page { content_type = some (str_append "text/html" (str_append ";" "q=1")) })
          0
        ≡ validate_document_upload page 0)
accepted_upload_example =
    accepted_upload scan page "a.pdf" "text/html" "q=1" 0 refl refl scan_accepted
