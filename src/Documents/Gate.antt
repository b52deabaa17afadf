-- ===== src/Documents/Gate.antt =====
-- Who passes the gate of the documents, and what a caller who does not can reach.
use Prim.Native.String.{◌++◌ as str_append}
use rooti_server.Text.Decimal.{str_of}
use rooti_server.Base.{
  ℕ, ◌≡◌, ◌≢◌, inl, inr, ◌⊎◌, false, Option, none, some, [], String, same, arith, ◌==◌,
  Option-cases, Bool-cases,
}
use rooti_server.Errors.{business, auth_forbidden}
use rooti_server.Exec.{err, Result-cases}
use rooti_server.Sql.{Sql}
use rooti_server.Redis.{Redis}
use rooti_server.Models.{User, CaregiverWorkerRelation, CaregiverDocument}
use rooti_server.Models.Enums.{
  UserRole-discrete, admin, CaregiverDocumentActionType, upload, download, delete,
}
use rooti_server.World.{World}
use rooti_server.Journals.{Bytes}
use rooti_server.Documents.{
  Storage, Archive, Uploaded, is_caregiver, new_document, ensure_actor_owns_relation,
  relation_or_404, own_relation, log, list_by_relation, load_for_download, delete_row,
  record_upload, upload_document, delete_document, download_document, on_world,
}

module _ ⦃sql : Sql⦄ ⦃redis : Redis⦄ where
  -- The user is unknown, or is no administrator and not the caregiver of the relation.
  abbrev pub IsStranger : World → ℕ → CaregiverWorkerRelation → Type 0
  IsStranger w actor relation =
      (sql.get actor w.users ≡ none)
      ⊎ ((u : User) × (sql.get actor w.users ≡ some u)
          × (same UserRole-discrete u.role admin ≡ false)
          × (is_caregiver actor (sql.get relation.caregiver_id w.caregivers) ≡ false))

  pub own_relation-refused :
      (w : World) (actor relation_id : ℕ) (relation : CaregiverWorkerRelation)
      → sql.get relation_id w.relations ≡ some relation
      → IsStranger w actor relation
      → own_relation actor relation_id w ≡ (err (business auth_forbidden), w)
  unfolding own_relation relation_or_404 ensure_actor_owns_relation
  own_relation-refused w actor relation_id relation found (inl unknown) = ground arith
  own_relation-refused w actor relation_id relation found (inr (u, known, plain, other)) =
      ground arith

  pub own_relation_same :
      (w : World) (actor relation_id : ℕ) → (own_relation actor relation_id w).1 ≡ w
  unfolding own_relation relation_or_404 ensure_actor_owns_relation
  own_relation_same w actor relation_id = ground arith

module _ ⦃sql : Sql⦄ ⦃redis : Redis⦄ ⦃storage : Storage⦄ where
  -- A stranger to a relation is refused by all four operations on it and on its documents, and the
  -- database, the log and the files stay as they are.
  pub stranger_refused :
      (s : Archive) (actor relation_id document_id type_id size : ℕ) (name : String)
      (content : Bytes) (content_type : Option String) (relation : CaregiverWorkerRelation)
      (doc : CaregiverDocument)
      → sql.get relation_id s.world.relations ≡ some relation
      → IsStranger s.world actor relation
      → sql.get document_id s.world.documents ≡ some doc
      → doc.relation_id ≡ relation_id
      → (upload_document actor relation_id type_id name content size content_type s
          ≡ (err (business auth_forbidden), s))
        × (list_by_relation actor relation_id s.world ≡ (err (business auth_forbidden), s.world))
        × (download_document actor document_id s ≡ (err (business auth_forbidden), s))
        × (delete_document actor document_id s ≡ (err (business auth_forbidden), s))
  unfolding upload_document list_by_relation download_document load_for_download delete_document
  stranger_refused s actor relation_id document_id type_id size name content content_type relation
        doc found stranger there of =
      let refused = own_relation-refused s.world actor relation_id relation found stranger in
      (ground arith, ground arith, ground arith, ground arith)

  kept_by_insert :
      (w : World) (row doc : CaregiverDocument) (k j : ℕ) (t : sql.Table CaregiverDocument)
      → sql.insert row w.documents ≡ some (k, t)
      → sql.get j w.documents ≡ some doc
      → sql.get j t ≡ some doc
  kept_by_insert w row doc k j t added there = ground (
    arith,
    sql.get-insert row w.documents k t j added,
    sql.insert_fresh row w.documents k t added,
  )

  pub log-documents :
      (w : World) (user_id document_id : ℕ) (action : CaregiverDocumentActionType)
      → (log user_id document_id action w).1.documents ≡ w.documents
  unfolding log
  log-documents w user_id document_id action = ground arith

  kept_by_record :
      (w : World) (actor relation_id type_id j : ℕ) (type_name : String) (uploaded : Uploaded)
      (doc : CaregiverDocument)
      → sql.get j w.documents ≡ some doc
      → sql.get j (record_upload actor relation_id type_id type_name uploaded w).1.documents
        ≡ some doc
  unfolding record_upload
  kept_by_record w actor relation_id type_id j type_name uploaded doc there =
      elim (Option-cases
        (sql.insert (new_document actor relation_id type_id uploaded) w.documents)) [
          | inl refused ↦ ground arith
          | inr ((k, t), added) ↦ ground (
            arith,
            log-documents (record w { documents = t }) actor k upload,
            kept_by_insert w (new_document actor relation_id type_id uploaded) doc k j t added
                there,
          )
        ]

  kept_by_upload :
      (s : Archive) (actor relation_id type_id size j : ℕ) (name : String) (content : Bytes)
      (content_type : Option String) (doc : CaregiverDocument)
      → sql.get j s.world.documents ≡ some doc
      → sql.get j
          (upload_document actor relation_id type_id name content size content_type
            s).1.world.documents
        ≡ some doc
  unfolding upload_document
  kept_by_upload s actor relation_id type_id size j name content content_type doc there =
      let same = own_relation_same s.world actor relation_id in
      elim (Option-cases (sql.get type_id s.world.document_types)) [
        | inl none_such ↦ ground arith
        | inr (ty, known) ↦
            elim (Result-cases
              (storage.store (str_append "caregiver-documents/" (str_of relation_id)) name content
                size content_type s.files).0) [
                  | inr (e, failed) ↦ ground arith
                  | inl (u, stored) ↦ ground (
                    arith,
                    kept_by_record s.world actor relation_id type_id j ty.name u doc there,
                  )
                ]
      ]

  load_for_download-documents :
      (w : World) (actor document_id : ℕ)
      → (load_for_download actor document_id w).1.documents ≡ w.documents
  unfolding load_for_download
  load_for_download-documents w actor document_id =
      elim (Option-cases (sql.get document_id w.documents)) [
        | inl gone ↦ ground arith
        | inr (doc, found) ↦ ground (
          arith,
          own_relation_same w actor doc.relation_id,
          log-documents w actor document_id download,
        )
      ]

  delete_other :
      (s : Archive) (actor document_id j : ℕ) (doc : CaregiverDocument)
      → document_id ≢ j
      → sql.get j s.world.documents ≡ some doc
      → sql.get j (delete_document actor document_id s).1.world.documents ≡ some doc
  unfolding delete_document delete_row
  delete_other s actor document_id j doc differ there =
      elim (Option-cases (sql.get document_id s.world.documents)) [
        | inl gone ↦ ground arith
        | inr (d, found) ↦ ground (
          arith,
          own_relation_same s.world actor d.relation_id,
          log-documents s.world actor document_id delete,
          sql.get-delete document_id s.world.documents j,
        )
      ]

  pub data Call : Type 0 where
    upload_call : ℕ → ℕ → String → Bytes → ℕ → Option String → Call
    list_call : ℕ → Call
    download_call : ℕ → Call
    delete_call : ℕ → Call

  -- What a call of the user leaves.
  abbrev pub after : ℕ → Call → Archive → Archive
  after actor (upload_call relation_id type_id name content size content_type) s =
      (upload_document actor relation_id type_id name content size content_type s).1
  after actor (list_call relation_id) s = (on_world (list_by_relation actor relation_id) s).1
  after actor (download_call document_id) s = (download_document actor document_id s).1
  after actor (delete_call document_id) s = (delete_document actor document_id s).1

  -- No call of a user, on whatever document or relation, changes or removes a document of a relation
  -- to which the user is a stranger.
  pub strangers_documents_kept :
      (s : Archive) (actor relation_id document_id : ℕ) (call : Call)
      (relation : CaregiverWorkerRelation) (doc : CaregiverDocument)
      → sql.get relation_id s.world.relations ≡ some relation
      → IsStranger s.world actor relation
      → sql.get document_id s.world.documents ≡ some doc
      → doc.relation_id ≡ relation_id
      → sql.get document_id (after actor call s).world.documents ≡ some doc
  unfolding list_by_relation download_document
  strangers_documents_kept s actor relation_id document_id (upload_call r ty name content size ct)
        relation doc found stranger there of =
      kept_by_upload s actor r ty size document_id name content ct doc there
  strangers_documents_kept s actor relation_id document_id (list_call r) relation doc found stranger
        there of =
      ground (arith, own_relation_same s.world actor r)
  strangers_documents_kept s actor relation_id document_id (download_call d) relation doc found
        stranger there of =
      ground (arith, load_for_download-documents s.world actor d)
  strangers_documents_kept s actor relation_id document_id (delete_call d) relation doc found
        stranger there of =
      elim (Bool-cases (d == document_id)) [
        | inl same_id ↦
            let e : d ≡ document_id = ground arith in
            rw e (
              let (_, _, _, refused) =
                stranger_refused s actor relation_id document_id 0 0 "" [] none relation doc found
                  stranger there of in
              ground arith)
        | inr differ ↦ delete_other s actor d document_id doc (λ e. ground arith) there
      ]
