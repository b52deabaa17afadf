-- ===== src/Storage/Tests.antt =====
-- The theorem on storage for one file of a disk that holds another.
use rooti_server.Base.{
  ◌≡◌, ◌≢◌, refl, ap, none, some, List, [], ◌∷◌, String, str_eq, leb, length, if◌then◌else◌,
}
use rooti_server.Errors.{value_error, external_error}
use rooti_server.Exec.{ok, err}
use rooti_server.Journals.{Bytes}
use rooti_server.Storage.{
  Disk, Files, Answer, taken, broken, parts, path_text, read_entry, split_from, target_of, enter,
  starts_with, after_last_dot, extension, new_key, safe_prefix, target_text, store, resolve,
}
use rooti_server.Storage.Chunks.{key_of, Ends, store-Ends}

-- A disk that takes small files only.
abbrev answer : List (String × Bytes) → String → Bytes → Answer
answer entries path body =
    if leb (length body) 2 then taken else broken 2 (external_error "No space left on device")

instance abbrev disk : Disk
disk = record {
  root = "data" ∷ "store" ∷ [];
  public_url = "https://f";
  ulid = λ n. "01J";
  answer = answer;
}

abbrev used : Files
used = record { entries = ("/data/store/a", 1 ∷ []) ∷ []; drawn = 4 }

stored_at :
    target_text (key_of "caregiver-documents/7" "a.pdf" used)
    ≡ "/data/store/caregiver-documents/7/01J.pdf"
unfolding target_text new_key safe_prefix extension parts split_from after_last_dot path_text
stored_at = refl

elsewhere : "/data/store/a" ≢ target_text (key_of "caregiver-documents/7" "a.pdf" used)
elsewhere = rw stored_at (λ e. cc (ap (λ s. str_eq s "/data/store/a") e))

store-Ends_example :
    Ends
      (broken 2 (external_error "No space left on device"))
      (1 ∷ 2 ∷ 3 ∷ [])
      (key_of "caregiver-documents/7" "a.pdf" used)
      (store "caregiver-documents/7" "a.pdf" (1 ∷ 2 ∷ 3 ∷ []) 3 none used)
    × (read_entry "/data/store/a"
          (store "caregiver-documents/7" "a.pdf" (1 ∷ 2 ∷ 3 ∷ []) 3 none used).1.entries
        ≡ some (1 ∷ []))
store-Ends_example =
    store-Ends "caregiver-documents/7" "a.pdf" (1 ∷ 2 ∷ 3 ∷ []) 3 none used "/data/store/a"
      elsewhere

pdf_suffix : extension "a.b.pdf" ≡ "pdf"
unfolding extension parts split_from after_last_dot
pdf_suffix = refl

escape_refused : resolve "../../etc/passwd" used ≡ (err value_error, used)
unfolding resolve target_of enter parts split_from starts_with path_text
escape_refused = refl

-- A directory beside the root whose name begins with the root's name is let through.
sibling_passes : resolve "../store2/x" used ≡ (ok ("data" ∷ "store2" ∷ "x" ∷ []), used)
unfolding resolve target_of enter parts split_from starts_with path_text
sibling_passes = refl
