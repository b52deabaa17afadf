-- ===== src/JobStandards/Sync.antt =====
-- What `sync_processes` leaves in the table of processes.
use rooti_server.Base.{
  ℕ, ◌≡◌, refl, ap, ◌∙◌, inl, inr, ◌⊎◌, Bool, true, false, not, ◌&&◌, none, some, List, [], ◌∷◌,
  filter, arith, ◌==◌, if◌then◌else◌, is_none, In, Option-cases, Bool-cases,
}
use rooti_server.Exec.{ok, Result-cases}
use rooti_server.Sql.{Sql, asc}
use rooti_server.Redis.{Redis}
use rooti_server.Models.{JobProcess}
use rooti_server.World.{World}
use rooti_server.JobStandards.Requests.{
  ProcessUpsertRequest, JobStandardResponse, new_process, requested, has_id, is_requested,
}
use rooti_server.JobStandards.{
  left_out, get_or_throw, company_name, by_sequence, of_standard, processes_of, sync_one, sync_all,
  delete_rows, sync_rows, sync_processes,
}

has_id-In :
    {R : Type 0} (id : ℕ) (rows : List (ℕ × R)) → has_id id rows ≡ true → (r : R) × In (id, r) rows
has_id-In id [] h = cc
has_id-In id ((k, r) ∷ rows) h = elim (Bool-cases (k == id)) [
  | inl e ↦ (r, inl (ground arith))
  | inr e ↦ let (q, m) = has_id-In id rows (ground arith) in (q, inr m)
]

In-has_id :
    {R : Type 0} (id : ℕ) (r : R) (rows : List (ℕ × R)) → In (id, r) rows → has_id id rows ≡ true
In-has_id id r [] m = absurd m
In-has_id id r ((k, q) ∷ rows) (inl e) = ground arith
In-has_id id r ((k, q) ∷ rows) (inr m) = ground (arith, In-has_id id r rows m)

-- The keys of a filtered list by the key alone.
has_id-filter :
    (p : ℕ → Bool) (id : ℕ) (rows : List (ℕ × JobProcess))
    → has_id id (filter (λ (row : ℕ × JobProcess). p row.0) rows) ≡ (p id && has_id id rows)
has_id-filter p id [] = ground arith
has_id-filter p id ((k, r) ∷ rows) = elim (Bool-cases (p k)) [
  | inl e ↦ rw e (ground (arith, has_id-filter p id rows))
  | inr e ↦ rw e (ground (arith, has_id-filter p id rows))
]

module _ ⦃sql : Sql⦄ ⦃redis : Redis⦄ where
  get-delete_rows :
      (rows : List (ℕ × JobProcess)) (t : sql.Table JobProcess) (j : ℕ)
      → sql.get j (delete_rows rows t) ≡ (if has_id j rows then none else sql.get j t)
  unfolding delete_rows
  get-delete_rows [] t j = refl
  get-delete_rows ((k, p) ∷ rows) t j =
      ground (arith, sql.get-delete k (delete_rows rows t) j, get-delete_rows rows t j)

  -- The keys of the processes of a standard.
  has_id-processes_of :
      (w : World) (standard_id j : ℕ) (p : JobProcess)
      → sql.get j w.job_processes ≡ some p
      → has_id j (processes_of w standard_id) ≡ (p.job_standard_id == standard_id)
  unfolding processes_of
  has_id-processes_of w standard_id j p there =
      let rows = sql.select (of_standard standard_id) w.job_processes in
      elim (Bool-cases (has_id j (sql.order_by asc by_sequence rows))) [
        | inl listed ↦
            let (q, m) = has_id-In j (sql.order_by asc by_sequence rows) listed in
            let (found, own) =
              sql.select_sound (of_standard standard_id) w.job_processes j q
                (sql.In-order_by asc by_sequence rows (j, q) m) in
            ground arith
        | inr missing ↦ elim (Bool-cases (p.job_standard_id == standard_id)) [
          | inl own ↦
              let listed = In-has_id j p (sql.order_by asc by_sequence rows) (
                sql.In_order_by_In asc by_sequence rows (j, p)
                  (sql.select_complete (of_standard standard_id) w.job_processes j p there own)) in
              cc
          | inr foreign ↦ rw (missing, foreign)
        ]
      ]

  -- A round leaves the rows that it does not name, and no row disappears.
  sync_one-get :
      (standard_id j : ℕ) (kept rows : List (ℕ × JobProcess)) (r : ProcessUpsertRequest)
      (p : JobProcess) (w : World)
      → has_id j kept ≡ false
      → sql.get j w.job_processes ≡ some p
      → sql.get j (sync_one standard_id kept r rows w).1.job_processes ≡ some p
  unfolding sync_one
  sync_one-get standard_id j kept rows r p w other there = elim (Option-cases r.id) [
    | inl new ↦ elim (Option-cases (sql.insert (new_process standard_id r) w.job_processes)) [
      | inl refused ↦ ground arith
      | inr ((k, t), added) ↦ ground (
        arith,
        sql.get-insert (new_process standard_id r) w.job_processes k t j added,
        sql.insert_fresh (new_process standard_id r) w.job_processes k t added,
      )
    ]
    | inr (id, named) ↦
        ground (arith, sql.get-update id (new_process standard_id r) w.job_processes j)
  ]

  sync_one-there :
      (standard_id j : ℕ) (kept rows : List (ℕ × JobProcess)) (r : ProcessUpsertRequest) (w : World)
      → is_none (sql.get j w.job_processes) ≡ false
      → is_none (sql.get j (sync_one standard_id kept r rows w).1.job_processes) ≡ false
  unfolding sync_one
  sync_one-there standard_id j kept rows r w there = elim (Option-cases r.id) [
    | inl new ↦ elim (Option-cases (sql.insert (new_process standard_id r) w.job_processes)) [
      | inl refused ↦ ground arith
      | inr ((k, t), added) ↦
          ground (arith, sql.get-insert (new_process standard_id r) w.job_processes k t j added)
    ]
    | inr (id, named) ↦
        ground (arith, sql.get-update id (new_process standard_id r) w.job_processes j)
  ]

  sync_all-get :
      (standard_id j : ℕ) (kept : List (ℕ × JobProcess)) (rs : List ProcessUpsertRequest)
      (rows : List (ℕ × JobProcess)) (p : JobProcess) (w : World)
      → has_id j kept ≡ false
      → sql.get j w.job_processes ≡ some p
      → sql.get j (sync_all standard_id kept rs rows w).1.job_processes ≡ some p
  unfolding sync_all
  sync_all-get standard_id j kept [] rows p w other there = there
  sync_all-get standard_id j kept (r ∷ rs) rows p w other there =
      let kept_row = sync_one-get standard_id j kept rows r p w other there in
      elim (Result-cases (sync_one standard_id kept r rows w).0) [
        | inr (e, failed) ↦ ground arith
        | inl (next, done) ↦ ground (
          arith,
          sync_all-get standard_id j kept rs next p (sync_one standard_id kept r rows w).1 other
              kept_row,
        )
      ]

  sync_all-there :
      (standard_id j : ℕ) (kept : List (ℕ × JobProcess)) (rs : List ProcessUpsertRequest)
      (rows : List (ℕ × JobProcess)) (w : World)
      → is_none (sql.get j w.job_processes) ≡ false
      → is_none (sql.get j (sync_all standard_id kept rs rows w).1.job_processes) ≡ false
  unfolding sync_all
  sync_all-there standard_id j kept [] rows w there = there
  sync_all-there standard_id j kept (r ∷ rs) rows w there =
      let kept_row = sync_one-there standard_id j kept rows r w there in
      elim (Result-cases (sync_one standard_id kept r rows w).0) [
        | inr (e, failed) ↦ ground arith
        | inl (next, done) ↦ ground (
          arith,
          sync_all-there standard_id j kept rs next (sync_one standard_id kept r rows w).1 kept_row,
        )
      ]

  -- The rows that the flush deletes.
  has_id-left_out :
      (w : World) (standard_id j : ℕ) (incoming : List ProcessUpsertRequest) (p : JobProcess)
      → sql.get j w.job_processes ≡ some p
      → has_id j (filter (left_out incoming) (processes_of w standard_id))
        ≡ (not (requested j incoming) && p.job_standard_id == standard_id)
  has_id-left_out w standard_id j incoming p there =
      has_id-filter (λ id. not (requested id incoming)) j (processes_of w standard_id)
      ∙ ap (λ b. not (requested j incoming) && b) (has_id-processes_of w standard_id j p there)

  sync_rows-ok :
      (standard_id : ℕ) (incoming : List ProcessUpsertRequest) (w w' : World)
      (rows : List (ℕ × JobProcess))
      → sync_rows standard_id incoming w ≡ (ok rows, w')
      → w'.job_processes
        ≡ delete_rows
            (filter (left_out incoming) (processes_of w standard_id))
            (sync_all standard_id
              (filter (is_requested incoming) (processes_of w standard_id))
              incoming
              (filter (is_requested incoming) (processes_of w standard_id))
              w).1.job_processes
  unfolding sync_rows
  sync_rows-ok standard_id incoming w w' rows h = ground arith

  synced :
      (standard_id : ℕ) (incoming : List ProcessUpsertRequest) (w w' : World) (j : ℕ)
      (p : JobProcess) (rows : List (ℕ × JobProcess))
      → sync_rows standard_id incoming w ≡ (ok rows, w')
      → sql.get j w.job_processes ≡ some p
      → (is_none (sql.get j w'.job_processes)
          ≡ (not (requested j incoming) && p.job_standard_id == standard_id))
        × ((p.job_standard_id ≡ standard_id) ⊎ (sql.get j w'.job_processes ≡ some p))
  synced standard_id incoming w w' j p rows h there =
      let kept = filter (is_requested incoming) (processes_of w standard_id) in
      let w1 = (sync_all standard_id kept incoming kept w).1 in
      let gone = filter (left_out incoming) (processes_of w standard_id) in
      let after = sync_rows-ok standard_id incoming w w' rows h in
      let listed = has_id-left_out w standard_id j incoming p there in
      let row = get-delete_rows gone w1.job_processes j in
      let still = sync_all-there standard_id j kept incoming kept w (ground arith) in
      rw after (
        ground arith,
        elim (Bool-cases (p.job_standard_id == standard_id)) [
          | inl own ↦ inl (ground arith)
          | inr foreign ↦
              let unkept : has_id j kept ≡ false =
                has_id-filter (λ id. requested id incoming) j (processes_of w standard_id)
                ∙ ground (arith, has_id-processes_of w standard_id j p there) in
              let same = sync_all-get standard_id j kept incoming kept p w unkept there in
              inr (ground arith)
        ],
      )

  -- A synchronisation that succeeds deletes exactly the processes of the standard that the request
  -- leaves out, and changes no process of another standard.
  pub sync_processes_exact :
      (standard_id : ℕ) (incoming : List ProcessUpsertRequest) (w w' : World) (j : ℕ)
      (p : JobProcess) (r : JobStandardResponse)
      → sync_processes standard_id incoming w ≡ (ok r, w')
      → sql.get j w.job_processes ≡ some p
      → (is_none (sql.get j w'.job_processes)
          ≡ (not (requested j incoming) && p.job_standard_id == standard_id))
        × ((p.job_standard_id ≡ standard_id) ⊎ (sql.get j w'.job_processes ≡ some p))
  unfolding sync_processes get_or_throw company_name
  sync_processes_exact standard_id incoming w w' j p r h there =
      elim (Option-cases (sql.get standard_id w.job_standards)) [
        | inl missing ↦ ground arith
        | inr (s, found) ↦ elim (Result-cases (sync_rows standard_id incoming w).0) [
          | inr (e, failed) ↦ ground arith
          | inl (rows, done) ↦
              let end : (sync_rows standard_id incoming w).1 ≡ w' = ground arith in
              synced standard_id incoming w w' j p rows (ground arith) there
        ]
      ]
