-- ===== src/Documents.antt =====
-- `CaregiverDocumentService` of app/services/document.py with app/api/v1/documents.py: the documents
-- of a caregiver's workers, behind the gate of the relation's owner, with a log of each access.
pub mod Gate
pub mod Audit
pub mod Endpoints
mod Tests
use Prim.Native.String.{◌++◌ as str_append}
use rooti_server.Base.{
  ℕ, Bool, true, false, not, Option, none, some, List, [], ◌∷◌, String, same, is_none, ◌==◌,
  if◌then◌else◌,
}
use rooti_server.Errors.{
  Exn, business, auth_forbidden, caregiver_not_found, document_not_found, document_type_not_found,
  storage_upload_failed,
}
use rooti_server.Exec.{Result, ok, err, Exec, pure, raise, gets, raise_if, or_raise, ◌>>=◌, ◌>>◌}
use rooti_server.Sql.{Sql, desc}
use rooti_server.Sql.Query.{inner_join}
use rooti_server.Redis.{Redis}
use rooti_server.Models.{
  User, Caregiver, CaregiverWorkerRelation, CaregiverDocument, CaregiverDocumentLog,
}
use rooti_server.Models.Enums.{
  UserRole-discrete, admin, CaregiverDocumentActionType, upload, download, delete,
}
use rooti_server.World.{
  World, users, caregivers, relations, document_types, documents, document_logs,
}
use rooti_server.World.Session.{db_get, add}
use rooti_server.Text.Decimal.{str_of}
use rooti_server.Journals.{Bytes}

pub record Uploaded : Type 0 where
  pub key : String
  pub url : String
  pub size : ℕ
  pub content_type : Option String

-- The `StorageService` protocol of app/integrations/storage.py, which an adapter fills.
pub record Storage : Type 1 where
  pub Files : Type 0
  pub store : String → String → Bytes → ℕ → Option String → Exec Files Uploaded
  pub open_file : String → Exec Files Bytes
  pub delete_file : String → Exec Files (Unit {0})

pub record DocumentResponse : Type 0 where
  pub id : ℕ
  pub relation_id : ℕ
  pub type_id : ℕ
  pub type_name : Option String
  pub filename : String
  pub download_url : Option String
  pub size : Option ℕ
  pub content_type : Option String

abbrev pub to_response : ℕ → CaregiverDocument → Option String → Option String → DocumentResponse
to_response id doc type_name download_url = record {
  id = id;
  relation_id = doc.relation_id;
  type_id = doc.type_id;
  type_name = type_name;
  filename = doc.filename;
  download_url = download_url;
  size = doc.file_size;
  content_type = doc.content_type;
}

unfoldable pub new_document : ℕ → ℕ → ℕ → Uploaded → CaregiverDocument
new_document actor_user_id relation_id type_id uploaded = record {
  relation_id = relation_id;
  type_id = type_id;
  filename = uploaded.key;
  file_size = some uploaded.size;
  content_type = uploaded.content_type;
  created_by = some actor_user_id;
  updated_by = some actor_user_id;
}

abbrev pub is_caregiver : ℕ → Option Caregiver → Bool
is_caregiver actor_user_id none = false
is_caregiver actor_user_id (some c) = c.user_id == actor_user_id

module _ ⦃sql : Sql⦄ ⦃redis : Redis⦄ where
  unfoldable pub ensure_actor_owns_relation : ℕ → CaregiverWorkerRelation → Exec World (Unit {0})
  ensure_actor_owns_relation actor_user_id relation = do
    found ← db_get users actor_user_id
    actor ← or_raise found (business auth_forbidden)
    if same UserRole-discrete actor.role admin then pure tt else do
      caregiver ← db_get caregivers relation.caregiver_id
      raise_if (not (is_caregiver actor_user_id caregiver)) (business auth_forbidden)

  unfoldable pub relation_or_404 : ℕ → Exec World CaregiverWorkerRelation
  relation_or_404 relation_id = do
    found ← db_get relations relation_id
    or_raise found (business caregiver_not_found)

  -- The gate of every operation: the relation is there, and the caller owns it.
  unfoldable pub own_relation : ℕ → ℕ → Exec World (Unit {0})
  own_relation actor_user_id relation_id = do
    relation ← relation_or_404 relation_id
    ensure_actor_owns_relation actor_user_id relation

  -- The row that `_log` adds to the session. It is pending until the next flush, which is that of the
  -- commit unless the call makes one.
  abbrev pub log_row : ℕ → ℕ → CaregiverDocumentActionType → CaregiverDocumentLog
  log_row user_id document_id action = record {
    document_id = document_id;
    user_id = user_id;
    action_type = action;
  }

  -- `_log` with the flush that inserts its row.
  unfoldable pub log : ℕ → ℕ → CaregiverDocumentActionType → Exec World ℕ
  log user_id document_id action = add document_logs (log_row user_id document_id action)

  -- The rest of `upload`, once the file is stored.
  unfoldable pub record_upload : ℕ → ℕ → ℕ → String → Uploaded → Exec World DocumentResponse
  record_upload actor_user_id relation_id type_id type_name uploaded = do
    let doc : CaregiverDocument = new_document actor_user_id relation_id type_id uploaded
    id ← add documents doc
    log actor_user_id id upload
    pure (to_response id doc (some type_name) (some uploaded.url))

  abbrev pub document_row : World → ℕ × CaregiverDocument → Option DocumentResponse
  document_row w (id, doc) = elim (sql.get doc.type_id w.document_types) [
    | none ↦ none
    | some t ↦ some (to_response id doc (some t.name) none)
  ]

  abbrev by_id : DocumentResponse → ℕ
  by_id r = r.id

  unfoldable pub list_by_relation : ℕ → ℕ → Exec World (List DocumentResponse)
  list_by_relation actor_user_id relation_id = do
    own_relation actor_user_id relation_id
    gets (λ w. sql.order_by desc by_id (
        inner_join (document_row w) (sql.select (λ _ d. d.relation_id == relation_id) w.documents)))

  -- The document, and the row of the log that is pending.
  unfoldable pub load_for_download : ℕ → ℕ → Exec World (CaregiverDocument × CaregiverDocumentLog)
  load_for_download actor_user_id document_id = do
    found ← db_get documents document_id
    doc ← or_raise found (business document_not_found)
    own_relation actor_user_id doc.relation_id
    pure (doc, log_row actor_user_id document_id download)

  unfoldable pub drop_logs :
      List (ℕ × CaregiverDocumentLog)
      → sql.Table CaregiverDocumentLog
      → sql.Table CaregiverDocumentLog
  drop_logs [] t = t
  drop_logs ((k, l) ∷ rows) t = sql.delete k (drop_logs rows t)

  -- `db.delete(doc)`: the foreign key of the log (migrations/V1__init_schema.sql) cascades.
  unfoldable pub delete_row : ℕ → World → World
  delete_row document_id w = record w {
    documents = sql.delete document_id w.documents;
    document_logs =
        drop_logs (sql.select (λ _ l. l.document_id == document_id) w.document_logs)
          w.document_logs;
  }

module _ ⦃sql : Sql⦄ ⦃redis : Redis⦄ ⦃storage : Storage⦄ where
  -- The database with the files.
  pub record Archive : Type 0 where
    pub world : World
    pub files : storage.Files

  abbrev pub on_world : {A : Type 0} → Exec World A → Exec Archive A
  on_world m s = let (r, w) = m s.world in (r, record s { world = w })

  abbrev pub on_files : {A : Type 0} → Exec storage.Files A → Exec Archive A
  on_files m s = let (r, f) = m s.files in (r, record s { files = f })

  -- `try: … except Exception as e: raise BusinessException(STORAGE_UPLOAD_FAILED)`
  abbrev pub store_or_fail : Exec storage.Files Uploaded → Exec storage.Files Uploaded
  store_or_fail m f =
      let (r, f') = m f in
      (elim r [ ok u ↦ ok u | err e ↦ err (business storage_upload_failed) ], f')

  unfoldable pub upload_document :
      ℕ → ℕ → ℕ → String → Bytes → ℕ → Option String → Exec Archive DocumentResponse
  upload_document actor_user_id relation_id type_id original_filename content size content_type = do
    on_world (own_relation actor_user_id relation_id)
    found ← on_world (db_get document_types type_id)
    doc_type ← or_raise found (business document_type_not_found)
    uploaded ← on_files (
        store_or_fail (
          storage.store (str_append "caregiver-documents/" (str_of relation_id)) original_filename
            content size content_type))
    on_world (record_upload actor_user_id relation_id type_id doc_type.name uploaded)

  unfoldable pub delete_document : ℕ → ℕ → Exec Archive (Unit {0})
  delete_document actor_user_id document_id = do
    found ← on_world (db_get documents document_id)
    doc ← or_raise found (business document_not_found)
    on_world (own_relation actor_user_id doc.relation_id)
    -- the flush of the commit inserts the row of the log and deletes the document after the file
    on_files (storage.delete_file doc.filename)
    on_world (log actor_user_id document_id delete)
    on_world (λ w. (ok tt, delete_row document_id w))

  -- The endpoint `download`: the gate, then the file; the commit inserts the pending row of the log.
  unfoldable pub download_document : ℕ → ℕ → Exec Archive Bytes
  download_document actor_user_id document_id = do
    (doc, row) ← on_world (load_for_download actor_user_id document_id)
    body ← on_files (storage.open_file doc.filename)
    on_world (add document_logs row)
    pure body
