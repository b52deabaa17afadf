-- ===== src/Schedules/Batch.antt =====
-- What a batch creates.
use rooti_server.Base.{
  ℕ, ◌≡◌, refl, ap, ◌∙◌, inl, inr, some, List, [], ◌∷◌, map, filter, arith, Bool-cases,
  Option-cases,
}
use rooti_server.Exec.{ok, Result-cases}
use rooti_server.Sql.{Sql}
use rooti_server.Redis.{Redis}
use rooti_server.Models.{WorkSchedule}
use rooti_server.World.{World}
use rooti_server.Schedules.{
  BatchMakeRequest, ScheduleResponse, new_schedule, is_assigned, batch_rows, schedule_response,
  add_all, batch_make,
}

module _ ⦃sql : Sql⦄ ⦃redis : Redis⦄ where
  batch_rows-filter :
      (w : World) (req : BatchMakeRequest) (ids : List ℕ)
      → batch_rows w req ids
        ≡ map (new_schedule req) (filter (is_assigned w req.job_standard_id) ids)
  batch_rows-filter w req [] = refl
  batch_rows-filter w req (id ∷ ids) = elim (Bool-cases (is_assigned w req.job_standard_id id)) [
    | inl e ↦ rw (e, batch_rows-filter w req ids)
    | inr e ↦ rw (e, batch_rows-filter w req ids)
  ]

  -- The rows were inserted one after the other, each under the key beside it.
  abbrev pub Inserted :
      List (ℕ × WorkSchedule) → sql.Table WorkSchedule → sql.Table WorkSchedule → Type 0
  Inserted [] t t' = t ≡ t'
  Inserted ((k, s) ∷ added) t t' =
      (t1 : sql.Table WorkSchedule) × (sql.insert s t ≡ some (k, t1)) × Inserted added t1 t'

  -- Every row is in the table under its key.
  abbrev pub AllStored : List (ℕ × WorkSchedule) → sql.Table WorkSchedule → Type 0
  AllStored [] t = Unit {0}
  AllStored ((k, s) ∷ added) t = (sql.get k t ≡ some s) × AllStored added t

  -- A flush that succeeds gives back the rows in order, with the keys of their inserts.
  add_all_rows :
      (rows : List WorkSchedule) (w w' : World) (added : List (ℕ × WorkSchedule))
      → add_all rows w ≡ (ok added, w')
      → (map (λ row. row.1) added ≡ rows) × Inserted added w.schedules w'.schedules
  unfolding add_all
  add_all_rows [] w w' added h =
      let none_added : added ≡ [] = ground arith in rw none_added (refl, ground arith)
  add_all_rows (s ∷ rest) w w' added h = elim (Option-cases (sql.insert s w.schedules)) [
    | inl refused ↦ absurd (ground arith)
    | inr (row, e) ↦
        let after = record w { schedules = row.1 } in
        elim (Result-cases (add_all rest after).0) [
          | inl (more, f) ↦
              let tail = add_all_rows rest after w' more (ground arith) in
              let is_cons : added ≡ (row.0, s) ∷ more = ground arith in
              rw is_cons (ap (λ l. s ∷ l) tail.0, (row.1, e, tail.1))
          | inr (x, f) ↦ absurd (ground arith)
        ]
  ]

  -- Inserts keep the rows that were there.
  Inserted-keeps :
      (added : List (ℕ × WorkSchedule)) (t t' : sql.Table WorkSchedule) (j : ℕ) (x : WorkSchedule)
      → Inserted added t t'
      → sql.get j t ≡ some x
      → sql.get j t' ≡ some x
  Inserted-keeps [] t t' j x same h = cc
  Inserted-keeps ((k, s) ∷ added) t t' j x (t1, e, rest) h =
      let at = sql.get-insert s t k t1 j e in
      let fresh = sql.insert_fresh s t k t1 e in
      Inserted-keeps added t1 t' j x rest (ground (arith, at, fresh))

  Inserted-AllStored :
      (added : List (ℕ × WorkSchedule)) (t t' : sql.Table WorkSchedule)
      → Inserted added t t'
      → AllStored added t'
  Inserted-AllStored [] t t' same = tt
  Inserted-AllStored ((k, s) ∷ added) t t' (t1, e, rest) =
      let at = sql.get-insert s t k t1 k e in
      (
        Inserted-keeps added t1 t' k s rest (ground (arith, at)),
        Inserted-AllStored added t1 t' rest,
      )

  abbrev pub stored_row : ScheduleResponse → ℕ × WorkSchedule
  stored_row r = (r.id, r.schedule)

  rows_of_responses :
      (w : World) (added : List (ℕ × WorkSchedule))
      → map stored_row (map (schedule_response w) added) ≡ added
  rows_of_responses w [] = refl
  rows_of_responses w ((k, s) ∷ added) = ap (λ l. (k, s) ∷ l) (rows_of_responses w added)

  second_of_rows :
      (responses : List ScheduleResponse)
      → map (λ r. r.schedule) responses ≡ map (λ row. row.1) (map stored_row responses)
  second_of_rows [] = refl
  second_of_rows (r ∷ rest) = ap (λ l. r.schedule ∷ l) (second_of_rows rest)

  -- A batch that succeeds answers, in the order of the request, with one open schedule from midnight
  -- of the date for each listed id of a job worker row of the standard, in use or not, and no other.
  -- The table of schedules is the one before with exactly these rows inserted in that order, each
  -- under the id of its response, and holds them all at the end.
  pub batch_make_exact :
      (req : BatchMakeRequest) (w w' : World) (responses : List ScheduleResponse)
      → batch_make req w ≡ (ok responses, w')
      → (map (λ r. r.schedule) responses
          ≡ map (new_schedule req) (filter (is_assigned w req.job_standard_id) req.job_worker_ids))
        × Inserted (map stored_row responses) w.schedules w'.schedules
        × AllStored (map stored_row responses) w'.schedules
  unfolding batch_make
  batch_make_exact req w w' responses h =
      let rows = batch_rows w req req.job_worker_ids in
      elim (Option-cases (sql.get req.job_standard_id w.job_standards)) [
        | inl missing ↦ absurd (ground arith)
        | inr (standard, known) ↦ elim (Result-cases (add_all rows w).0) [
          | inl (added, e) ↦
              let shown : responses ≡ map (schedule_response (add_all rows w).1) added =
                ground arith in
              let (same, inserted) = add_all_rows rows w w' added (ground arith) in
              let keyed : map stored_row responses ≡ added =
                ap (map stored_row) shown ∙ rows_of_responses (add_all rows w).1 added in
              (
                second_of_rows responses
                    ∙ ap (map (λ row. row.1)) keyed
                    ∙ same
                    ∙ batch_rows-filter w req req.job_worker_ids,
                rw keyed inserted,
                rw keyed (Inserted-AllStored added w.schedules w'.schedules inserted),
              )
          | inr (x, e) ↦ absurd (ground arith)
        ]
      ]
