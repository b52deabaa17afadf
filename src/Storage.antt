-- ===== src/Storage.antt =====
-- `LocalDiskStorage` of app/integrations/storage.py. `pathlib` paths are lists of names below "/";
-- there are no symbolic links. ULIDs come from a generator, a parameter, that a counter drives.
pub mod Chunks
mod Tests
use Prim.Native.Char.{Char, code}
use Prim.Native.String.{◌++◌ as str_append}
use rooti_server.Base.{
  ℕ, zero, suc, Bool, true, false, not, ◌&&◌, ◌||◌, Option, none, some, List, [], ◌∷◌, ◌++◌, filter,
  String, str_eq, leb, ◌==◌, if◌then◌else◌, take, drop, length,
}
use rooti_server.Errors.{Exn, value_error, external_error}
use rooti_server.Exec.{Result, ok, err, Exec, pure, raise, gets, modify, or_raise, ◌>>=◌, ◌>>◌}
use rooti_server.Text.{truthy}
use rooti_server.Journals.{Bytes}
use rooti_server.Documents.{Uploaded, Storage}

-- What the file system does with a new file: it takes all of it; `mkdir` or `open` raises; or a
-- `write` raises when this many bytes are in the file.
pub data Answer : Type 0 where
  taken : Answer
  unopened : Exn → Answer
  broken : ℕ → Exn → Answer

-- `STORAGE_LOCAL_ROOT`, resolved, `STORAGE_PUBLIC_URL` without its last slashes, `ulid.ULID()`, and the
-- file system's answer to a path and its bytes, which the files on the disk may decide.
pub record Disk : Type 0 where
  pub root : List String
  pub public_url : String
  pub ulid : ℕ → String
  pub answer : List (String × Bytes) → String → Bytes → Answer

pub record Files : Type 0 where
  pub entries : List (String × Bytes)
  pub drawn : ℕ

-- `while chunk := content.read(64 * 1024): f.write(chunk)`, on fuel; `none` means that it ran out.
abbrev pub chunk_size : ℕ
chunk_size = 65536

unfoldable pub copy_chunks : ℕ → ℕ → Bytes → Bytes → Option Bytes
copy_chunks size zero content written = none
copy_chunks size (suc fuel) content written =
    let rest = copy_chunks size fuel (drop size content) (written ++ take size content) in
    elim content [ [] ↦ some written | c ∷ cs ↦ rest ]

-- `[a-zA-Z0-9_/\-]`
abbrev pub is_plain : Char → Bool
is_plain c =
    leb 97 (code c) && leb (code c) 122
    || leb 65 (code c) && leb (code c) 90
    || leb 47 (code c) && leb (code c) 57
    || code c == 95
    || code c == 45

unfoldable pub safe_prefix : String → String
safe_prefix String.[] = String.[]
safe_prefix (String.◌∷◌ c s) = String.◌∷◌ (if is_plain c then c else "_") (safe_prefix s)

-- The names between the slashes.
unfoldable pub split_from : String → String → List String
split_from name String.[] = name ∷ []
split_from name (String.◌∷◌ c s) =
    let next =
      split_from (if code c == 47 then "" else str_append name (String.◌∷◌ c String.[])) s in
    if code c == 47 then name ∷ next else next

abbrev pub is_name : String → Bool
is_name s = truthy s && not (str_eq s ".")

-- `Path(s).parts` below the root
unfoldable pub parts : String → List String
parts s = filter is_name (split_from "" s)

abbrev pub last_or : String → List String → String
last_or a [] = a
last_or a (x ∷ xs) = last_or x xs

unfoldable pub after_last_dot : String → Option String
after_last_dot String.[] = none
after_last_dot (String.◌∷◌ c s) = elim (after_last_dot s) [
  | some e ↦ some e
  | none ↦ if code c == 46 then some s else none
]

abbrev pub tail : String → String
tail String.[] = String.[]
tail (String.◌∷◌ c s) = s

-- `Path(name).suffix.lstrip(".")`: a dot at the start or at the end of the name does not count.
unfoldable pub extension : String → String
extension name = elim (after_last_dot (tail (last_or "" (parts name)))) [ none ↦ "" | some e ↦ e ]

unfoldable pub new_key : String → String → String → String
new_key prefix ulid ext =
    str_append (safe_prefix (if truthy prefix then prefix else "misc"))
      (str_append "/" (str_append ulid (if truthy ext then str_append "." ext else "")))

-- `..` leaves the last name; above "/" it stays there.
abbrev pub drop_last : List String → List String
drop_last [] = []
drop_last (x ∷ []) = []
drop_last (x ∷ y ∷ ys) = x ∷ drop_last (y ∷ ys)

unfoldable pub enter : List String → List String → List String
enter here [] = here
enter here (p ∷ ps) = enter (if str_eq p ".." then drop_last here else here ++ (p ∷ [])) ps

unfoldable pub path_text : List String → String
path_text [] = ""
path_text (p ∷ ps) = str_append "/" (str_append p (path_text ps))

unfoldable pub starts_with : String → String → Bool
starts_with s String.[] = true
starts_with String.[] (String.◌∷◌ d t) = false
starts_with (String.◌∷◌ c s) (String.◌∷◌ d t) =
    let rest = starts_with s t in code c == code d && rest

abbrev pub is_absolute : String → Bool
is_absolute String.[] = false
is_absolute (String.◌∷◌ c s) = code c == 47

-- `(root / key).resolve()`
unfoldable pub target_of : List String → String → List String
target_of root key = enter (if is_absolute key then [] else root) (parts key)

abbrev pub read_entry : String → List (String × Bytes) → Option Bytes
read_entry path [] = none
read_entry path ((p, b) ∷ es) =
    let rest = read_entry path es in if str_eq p path then some b else rest

abbrev pub other_path : String → String × Bytes → Bool
other_path path (p, b) = not (str_eq p path)

module _ ⦃disk : Disk⦄ where
  unfoldable pub resolve : String → Exec Files (List String)
  resolve key =
      if not (starts_with (path_text (target_of disk.root key)) (path_text disk.root))
      then raise value_error
      else pure (target_of disk.root key)

  -- `root / key`, where an absolute key leaves the root
  unfoldable pub target_text : String → String
  target_text key = path_text ((if is_absolute key then [] else disk.root) ++ parts key)

  -- The answer to a file under its new key, and the entries that it leaves.
  abbrev pub placed : Answer → String → Bytes → List (String × Bytes) → List (String × Bytes)
  placed taken target body entries = (target, body) ∷ filter (other_path target) entries
  placed (unopened e) target body entries = entries
  placed (broken n e) target body entries =
      (target, take n body) ∷ filter (other_path target) entries

  abbrev pub answered : {A : Type 0} → Answer → A → Result A
  answered taken a = ok a
  answered (unopened e) a = err e
  answered (broken n e) a = err e

  unfoldable pub store : String → String → Bytes → ℕ → Option String → Exec Files Uploaded
  store prefix original_filename content size content_type = do
    drawn ← gets (λ f. f.drawn)
    let key : String = new_key prefix (disk.ulid drawn) (extension original_filename)
    body ←
        or_raise (copy_chunks chunk_size (suc (length content)) content []) (external_error "fuel")
    answer ← gets (λ f. disk.answer f.entries (target_text key) body)
    modify (λ f. record {
      entries = placed answer (target_text key) body f.entries;
      drawn = suc f.drawn;
    })
    (λ f. (
      answered answer (record {
        key = key;
        url = str_append disk.public_url (str_append "/" key);
        size = size;
        content_type = content_type;
      }),
      f,
    ))

  unfoldable pub open_file : String → Exec Files Bytes
  open_file key = do
    path ← resolve key
    body ← gets (λ f. read_entry (path_text path) f.entries)
    or_raise body (external_error "No such file or directory")

  -- `path.unlink(missing_ok=True)`
  unfoldable pub delete_file : String → Exec Files (Unit {0})
  delete_file key = do
    path ← resolve key
    modify (λ f. record f { entries = filter (other_path (path_text path)) f.entries })

  instance abbrev pub local_disk : Storage
  local_disk = record {
    Files = Files;
    store = store;
    open_file = open_file;
    delete_file = delete_file;
  }
