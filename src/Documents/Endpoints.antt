-- ===== src/Documents/Endpoints.antt =====
-- app/api/v1/documents.py: the file is checked before the service is called. The download is
-- `download_document`.
use rooti_server.Base.{ℕ, List}
use rooti_server.Exec.{Exec, ◌>>◌}
use rooti_server.Sql.{Sql}
use rooti_server.Redis.{Redis}
use rooti_server.Security.{Settings, PrincipalDetails}
use rooti_server.Uploads.{UploadFile, size_of, sanitize_filename, validate_document_upload}
use rooti_server.Journals.{Bytes}
use rooti_server.Documents.{
  Storage, Archive, DocumentResponse, on_world, list_by_relation, upload_document, delete_document,
}

module _ ⦃sql : Sql⦄ ⦃redis : Redis⦄ ⦃storage : Storage⦄ ⦃settings : Settings⦄ where
  pub upload : UploadFile → Bytes → ℕ → ℕ → PrincipalDetails → Exec Archive DocumentResponse
  upload file content relation_id type_id me = do
    validate_document_upload file
    upload_document me.user_id relation_id type_id (sanitize_filename file.filename) content
        (size_of file) file.content_type

module _ ⦃sql : Sql⦄ ⦃redis : Redis⦄ ⦃storage : Storage⦄ where
  pub list_documents : ℕ → PrincipalDetails → Exec Archive (List DocumentResponse)
  list_documents relation_id me = on_world (list_by_relation me.user_id relation_id)

  pub delete : ℕ → PrincipalDetails → Exec Archive (Unit {0})
  delete document_id me = delete_document me.user_id document_id
