-- ===== src/Documents/Audit.antt =====
-- What the access log of the documents holds after a download and after a deletion.
use rooti_server.Base.{
  ℕ, ◌≡◌, ◌≢◌, inl, inr, Bool, none, some, List, [], ◌∷◌, arith, ◌==◌, In, Option-cases,
}
use rooti_server.Exec.{ok}
use rooti_server.Sql.{Sql}
use rooti_server.Redis.{Redis}
use rooti_server.Models.{CaregiverDocumentLog}
use rooti_server.Models.Enums.{delete}
use rooti_server.World.{World}
use rooti_server.Documents.{Storage, Archive, log, drop_logs, delete_row, delete_document}
use rooti_server.Documents.Gate.{own_relation_same}

module _ ⦃sql : Sql⦄ ⦃redis : Redis⦄ where
  drop_logs-In :
      (rows : List (ℕ × CaregiverDocumentLog)) (t : sql.Table CaregiverDocumentLog) (k : ℕ)
      (l : CaregiverDocumentLog)
      → In (k, l) rows
      → sql.get k (drop_logs rows t) ≡ none
  unfolding drop_logs
  drop_logs-In [] t k l m = absurd m
  drop_logs-In ((i, r) ∷ rows) t k l (inl e) = ground (arith, sql.get-delete i (drop_logs rows t) k)
  drop_logs-In ((i, r) ∷ rows) t k l (inr m) =
      ground (arith, sql.get-delete i (drop_logs rows t) k, drop_logs-In rows t k l m)

  drop_logs-get :
      (rows : List (ℕ × CaregiverDocumentLog)) (t : sql.Table CaregiverDocumentLog) (k : ℕ)
      (l : CaregiverDocumentLog)
      → sql.get k (drop_logs rows t) ≡ some l
      → sql.get k t ≡ some l
  unfolding drop_logs
  drop_logs-get [] t k l h = h
  drop_logs-get ((i, r) ∷ rows) t k l h =
      drop_logs-get rows t k l (ground (arith, sql.get-delete i (drop_logs rows t) k))

  delete_row-logs :
      (w : World) (document_id k : ℕ) (l : CaregiverDocumentLog)
      → sql.get k (delete_row document_id w).document_logs ≡ some l
      → l.document_id ≢ document_id
  unfolding delete_row
  delete_row-logs w document_id k l h of =
      let test : ℕ → CaregiverDocumentLog → Bool = λ i r. r.document_id == document_id in
      let there = drop_logs-get (sql.select test w.document_logs) w.document_logs k l h in
      let gone =
        drop_logs-In (sql.select test w.document_logs) w.document_logs k l
          (sql.select_complete test w.document_logs k l there (ground arith)) in
      cc

module _ ⦃sql : Sql⦄ ⦃redis : Redis⦄ ⦃storage : Storage⦄ where
  deleted_world :
      (s s' : Archive) (actor document_id : ℕ)
      → delete_document actor document_id s ≡ (ok tt, s')
      → s'.world ≡ delete_row document_id (log actor document_id delete s.world).1
  unfolding delete_document
  deleted_world s s' actor document_id h =
      elim (Option-cases (sql.get document_id s.world.documents)) [
        | inl gone ↦ ground arith
        | inr (d, found) ↦ ground (arith, own_relation_same s.world actor d.relation_id)
      ]

  -- A deletion that succeeds leaves no row of the document in the log, its own row included.
  pub delete_document-logs :
      (s s' : Archive) (actor document_id k : ℕ) (l : CaregiverDocumentLog)
      → delete_document actor document_id s ≡ (ok tt, s')
      → sql.get k s'.world.document_logs ≡ some l
      → l.document_id ≢ document_id
  delete_document-logs s s' actor document_id k l h row =
      delete_row-logs (log actor document_id delete s.world).1 document_id k l
        (rw (← deleted_world s s' actor document_id h) row)
