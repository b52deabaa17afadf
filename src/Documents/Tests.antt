-- ===== src/Documents/Tests.antt =====
-- The theorems on documents for a caregiver with one document, a stranger and files in memory.
use rooti_server.Base.{◌≡◌, ◌≢◌, refl, inr, none, some, [], ◌∷◌}
use rooti_server.Errors.{business, auth_forbidden}
use rooti_server.Exec.{ok, err}
use rooti_server.Models.{CaregiverDocument, CaregiverDocumentLog}
use rooti_server.Models.Enums.{caregiver, CaregiverDocumentActionType}
use rooti_server.Journals.{Bytes}
use rooti_server.Documents.{
  Storage, Archive, upload_document, list_by_relation, download_document, delete_document,
  own_relation, relation_or_404, ensure_actor_owns_relation, log, delete_row, drop_logs,
}
use rooti_server.Documents.Gate.{stranger_refused, strangers_documents_kept, after, delete_call}
use rooti_server.Documents.Audit.{delete_document-logs}
use rooti_server.Samples.{sql, redis, office}

-- A store that keeps the last file.
instance abbrev storage : Storage
storage = record {
  Files = Bytes;
  store = λ prefix name content size content_type files.
      (ok (record { key = "k"; url = "u"; size = size; content_type = content_type }), content);
  open_file = λ key files. (ok files, files);
  delete_file = λ key files. (ok tt, []);
}

abbrev doc : CaregiverDocument
doc = record {
  relation_id = 0;
  type_id = 0;
  filename = "k";
  file_size = some 1;
  content_type = none;
  created_by = some 0;
  updated_by = some 0;
}

-- The caregiver is user 0 of the relation 0; park is user 1.
abbrev kept : Archive
kept = record {
  world = record office {
    caregivers = some (record { user_id = 0 }) ∷ [];
    relations = some (record { caregiver_id = 0; challenged_worker_id = 0 }) ∷ [];
    document_types = some (record { name = "contract"; description = none }) ∷ [];
    documents = some doc ∷ [];
  };
  files = 65 ∷ [];
}

stranger_refused_example :
    (upload_document 1 0 0 "a" [] 1 none kept ≡ (err (business auth_forbidden), kept))
    × (list_by_relation 1 0 kept.world ≡ (err (business auth_forbidden), kept.world))
    × (download_document 1 0 kept ≡ (err (business auth_forbidden), kept))
    × (delete_document 1 0 kept ≡ (err (business auth_forbidden), kept))
unfolding rooti_server.Models.Enums.UserRole-discrete
stranger_refused_example =
    stranger_refused kept 1 0 0 0 1 "a" [] none
      (record { caregiver_id = 0; challenged_worker_id = 0 }) doc refl (inr (_, refl, refl, refl))
      refl refl

strangers_documents_kept_example :
    sql.get 0 (after 1 (delete_call 0) kept).world.documents ≡ some doc
unfolding rooti_server.Models.Enums.UserRole-discrete
strangers_documents_kept_example =
    strangers_documents_kept kept 1 0 0 (delete_call 0)
      (record { caregiver_id = 0; challenged_worker_id = 0 }) doc refl (inr (_, refl, refl, refl))
      refl refl

abbrev row : CaregiverDocumentLog
row = record { document_id = 0; user_id = 0; action_type = CaregiverDocumentActionType.download }

abbrev read : Archive
read = record kept { world = record kept.world { document_logs = some row ∷ [] } }

abbrev other_row : CaregiverDocumentLog
other_row = record row { document_id = 7 }

abbrev logged : Archive
logged = record read {
  world = record read.world { document_logs = some row ∷ some other_row ∷ [] };
}

abbrev removed : Archive
removed = record {
  world = record logged.world {
    documents = none ∷ [];
    document_logs = none ∷ some other_row ∷ none ∷ [];
  };
  files = [];
}

delete_run : delete_document 0 0 logged ≡ (ok tt, removed)
unfolding delete_document own_relation relation_or_404 ensure_actor_owns_relation log delete_row
    drop_logs rooti_server.Models.Enums.UserRole-discrete
delete_run = refl

delete_document-logs_example : other_row.document_id ≢ 0
delete_document-logs_example = delete_document-logs logged removed 0 0 1 other_row delete_run refl
