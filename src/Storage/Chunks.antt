-- ===== src/Storage/Chunks.antt =====
-- The copy of an upload ends, and what it leaves on the disk.
use Prim.Native.String.{◌++◌ as str_append}
use mathlib.Core.List.{append-nil, append_assoc}
use rooti_server.Base.{
  ℕ, zero, suc, ◌<◌, ◌≡◌, ◌≢◌, inl, inr, false, refl, sym, ap, ◌∙◌, Option, some, List, [], ◌∷◌,
  ◌++◌, filter, String, eq_iff, arith, str_eq, Bool-cases, take, drop, length, length-drop,
}
use rooti_server.Exec.{Result, ok, err}
use rooti_server.Journals.{Bytes}
use rooti_server.Documents.{Uploaded}
use rooti_server.Storage.{
  Disk, Files, Answer, taken, unopened, broken, chunk_size, copy_chunks, new_key, extension,
  target_text, placed, answered, read_entry, other_path, store,
}

take-append-drop : {A : Type 0} (n : ℕ) (xs : List A) → take n xs ++ drop n xs ≡ xs
take-append-drop zero xs = refl
take-append-drop (suc n) [] = refl
take-append-drop (suc n) (x ∷ xs) = ap (◌∷◌ x) (take-append-drop n xs)

-- The loop ends within as many rounds as there are bytes, and has written all of them in order.
pub copy_chunks-all :
    (size fuel : ℕ) (content written : Bytes)
    → 0 < size
    → length content < fuel
    → copy_chunks size fuel content written ≡ some (written ++ content)
unfolding copy_chunks
copy_chunks-all size zero content written pos h = absurd (omega arith)
copy_chunks-all size (suc fuel) [] written pos h = ap some (sym (append-nil written))
copy_chunks-all size (suc fuel) (c ∷ cs) written pos h =
    copy_chunks-all size fuel (drop size (c ∷ cs)) (written ++ take size (c ∷ cs)) pos
      (omega (arith, length-drop size (c ∷ cs)))
    ∙ ap some (
        append_assoc written (take size (c ∷ cs)) (drop size (c ∷ cs))
        ∙ ap (λ t. written ++ t) (take-append-drop size (c ∷ cs)))

str_eq-differ : (a b : String) → b ≢ a → str_eq a b ≡ false
str_eq-differ a b other = elim (Bool-cases (str_eq a b)) [
  | inl e ↦ absurd (other (sym ((eq_iff a b).0 e)))
  | inr e ↦ e
]

-- Replacing one file leaves the others.
read_entry-others :
    (path target : String) (entries : List (String × Bytes))
    → path ≢ target
    → read_entry path (filter (other_path target) entries) ≡ read_entry path entries
read_entry-others path target [] other = refl
read_entry-others path target ((p, b) ∷ entries) other =
    let rest = read_entry-others path target entries other in
    elim (Bool-cases (str_eq p target)) [
      | inr kept ↦ rw (kept, rest)
      | inl dropped ↦
          let differ : str_eq p path ≡ false =
            str_eq-differ p path (rw ((eq_iff p target).0 dropped) other) in
          rw (dropped, differ, rest)
    ]

module _ ⦃disk : Disk⦄ where
  -- The key, the answer and the outcome of a call of `store`.
  abbrev pub key_of : String → String → Files → String
  key_of prefix name f = new_key prefix (disk.ulid f.drawn) (extension name)

  abbrev pub Ends : Answer → Bytes → String → Result Uploaded × Files → Type 0
  Ends taken content key (r, f) =
      (u : Uploaded) × (r ≡ ok u)
      × (u.key ≡ key)
      × (read_entry (target_text u.key) f.entries ≡ some content)
  Ends (unopened e) content key (r, f) = r ≡ err e
  Ends (broken n e) content key (r, f) =
      (r ≡ err e) × (read_entry (target_text key) f.entries ≡ some (take n content))

  stored :
      (prefix name : String) (content : Bytes) (size : ℕ) (content_type : Option String) (f : Files)
      → store prefix name content size content_type f ≡ (
        answered (disk.answer f.entries (target_text (key_of prefix name f)) content) (record {
          key = key_of prefix name f;
          url = str_append disk.public_url (str_append "/" (key_of prefix name f));
          size = size;
          content_type = content_type;
        }),
        record {
          entries =
              placed
                (disk.answer f.entries (target_text (key_of prefix name f)) content)
                (target_text (key_of prefix name f))
                content
                f.entries;
          drawn = suc f.drawn;
        },
      )
  unfolding store
  stored prefix name content size content_type f =
      let copied =
        copy_chunks-all chunk_size (suc (length content)) content [] (omega arith) (omega arith) in
      rw copied refl

  ends :
      (answer : Answer) (content : Bytes) (u : Uploaded) (f : Files)
      → Ends answer content u.key (
        answered answer u,
        record {
          entries = placed answer (target_text u.key) content f.entries;
          drawn = suc f.drawn;
        },
      )
  ends taken content u f =
      (u, refl, refl, rw ((eq_iff (target_text u.key) (target_text u.key)).1 refl) refl)
  ends (unopened e) content u f = refl
  ends (broken n e) content u f =
      (refl, rw ((eq_iff (target_text u.key) (target_text u.key)).1 refl) refl)

  placed-others :
      (answer : Answer) (path target : String) (content : Bytes) (entries : List (String × Bytes))
      → path ≢ target
      → read_entry path (placed answer target content entries) ≡ read_entry path entries
  placed-others taken path target content entries other =
      let differ = str_eq-differ target path other in
      rw differ (read_entry-others path target entries other)
  placed-others (unopened e) path target content entries other = refl
  placed-others (broken n e) path target content entries other =
      let differ = str_eq-differ target path other in
      rw differ (read_entry-others path target entries other)

  -- Storing a file ends, whatever its name and its claimed size, as the file system answers: with the
  -- new key, under which the file holds exactly the given bytes; with the exception of `mkdir` or
  -- `open`; or with the exception of a `write`, and then the bytes written so far stay on the disk.
  -- Every other file is as it was in each case.
  pub store-Ends :
      (prefix name : String) (content : Bytes) (size : ℕ) (content_type : Option String) (f : Files)
      (path : String)
      → path ≢ target_text (key_of prefix name f)
      → Ends
          (disk.answer f.entries (target_text (key_of prefix name f)) content)
          content
          (key_of prefix name f)
          (store prefix name content size content_type f)
        × (read_entry path (store prefix name content size content_type f).1.entries
            ≡ read_entry path f.entries)
  store-Ends prefix name content size content_type f path other =
      let key = key_of prefix name f in
      let answer = disk.answer f.entries (target_text key) content in
      rw (stored prefix name content size content_type f) (
        ends answer content
            (record {
              key = key;
              url = str_append disk.public_url (str_append "/" key);
              size = size;
              content_type = content_type;
            })
            f,
        placed-others answer path (target_text key) content f.entries other,
      )
