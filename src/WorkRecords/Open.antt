-- ===== src/WorkRecords/Open.antt =====
-- At most one record of a type is open on a schedule, as long as requests run one after another; and
-- what two overlapping requests do.
use rooti_server.Base.{ℕ, ◌≡◌, ◌⊎◌, inl, inr, true, none, some, arith, Option-cases}
use rooti_server.Sql.{Sql}
use rooti_server.Sql.Query.{scalar_one_or_none, OneOrNone-cases, one-one, one-no_row, NoRow}
use rooti_server.Redis.{Redis}
use rooti_server.Models.{WorkRecord}
use rooti_server.Models.Enums.{WorkRecordType}
use rooti_server.World.{World}
use rooti_server.WorkRecords.{RecordRequest, is_open, begin, end_record, given_or}

module _ ⦃sql : Sql⦄ ⦃redis : Redis⦄ where
  -- At most one record of each type is open on each schedule.
  abbrev pub OpenUnique : World → Type 0
  OpenUnique w =
      (schedule_id : ℕ) (type : WorkRecordType) (j k : ℕ) (r s : WorkRecord)
      → sql.get j w.records ≡ some r
      → is_open schedule_id type j r ≡ true
      → sql.get k w.records ≡ some s
      → is_open schedule_id type k s ≡ true
      → j ≡ k

  unfoldable pub new_record : RecordRequest → World → WorkRecord
  new_record req w = record {
    work_schedule_id = req.work_schedule_id;
    type = req.type;
    start_at = given_or req.at_time w.now;
    end_at = none;
  }

  -- What `begin` does to the records: nothing, or one new row where no matching record was open.
  begin_effect :
      (req : RecordRequest) (w : World)
      → ((begin req w).1.records ≡ w.records)
        ⊎ (NoRow (is_open req.work_schedule_id req.type) w.records
            × ((key : ℕ) × (sql.insert (new_record req w) w.records
                  ≡ some (key, (begin req w).1.records))))
  unfolding begin new_record
  begin_effect req w =
      let p = is_open req.work_schedule_id req.type in
      elim (Option-cases (sql.get req.work_schedule_id w.schedules)) [
        | inl missing ↦ inl (ground arith)
        | inr (schedule, there) ↦
            elim (OneOrNone-cases (scalar_one_or_none (sql.select p w.records))) [
              | inl free ↦ elim (Option-cases (sql.insert (new_record req w) w.records)) [
                | inl refused ↦ inl (ground arith)
                | inr (row, accepted) ↦ inr (one-no_row p w.records free, (row.0, ground arith))
              ]
              | inr taken ↦ inl (ground arith)
            ]
      ]

  -- A row that joins rows of which at most one of each kind is open keeps that so, if none of its own
  -- kind is open yet.
  insert-OpenUnique :
      (req : RecordRequest) (w w' : World) (key : ℕ)
      → OpenUnique w
      → NoRow (is_open req.work_schedule_id req.type) w.records
      → sql.insert (new_record req w) w.records ≡ some (key, w'.records)
      → OpenUnique w'
  unfolding new_record
  insert-OpenUnique req w w' key u free e schedule_id type j k r s gr pr gs ps =
      let at = λ (i : ℕ). sql.get-insert (new_record req w) w.records key w'.records i e in
      ground (arith, at j, at k, u schedule_id type j k r s, free j r, free k s)

  pub begin-OpenUnique :
      (req : RecordRequest) (w : World) → OpenUnique w → OpenUnique (begin req w).1
  begin-OpenUnique req w u = elim (begin_effect req w) [
    | inl same_records ↦ λ schedule_id type j k r s gr pr gs ps.
        u schedule_id type j k r s (rw same_records at gr) pr (rw same_records at gs) ps
    | inr (free, (key, e)) ↦ insert-OpenUnique req w (begin req w).1 key u free e
  ]

  -- What `end` does to the records: nothing, or one open record is closed.
  pub end_effect :
      (req : RecordRequest) (w : World)
      → ((end_record req w).1.records ≡ w.records)
        ⊎ ((key : ℕ) × (r : WorkRecord) × (t : ℕ) × (sql.get key w.records ≡ some r)
            × (is_open req.work_schedule_id req.type key r ≡ true)
            × ((end_record req w).1.records
                ≡ sql.update key (record r { end_at = some t }) w.records))
  unfolding end_record
  end_effect req w =
      let p = is_open req.work_schedule_id req.type in
      elim (OneOrNone-cases (scalar_one_or_none (sql.select p w.records))) [
        | inl none_open ↦ inl (ground arith)
        | inr rest ↦ elim rest [
          | inl (row, e) ↦
              let found = one-one p w.records row.0 row.1 e in
              inr (row.0, row.1, given_or req.at_time w.now, found.0, found.1, ground arith)
          | inr many ↦ inl (ground arith)
        ]
      ]

  pub end-OpenUnique :
      (req : RecordRequest) (w : World) → OpenUnique w → OpenUnique (end_record req w).1
  end-OpenUnique req w u = elim (end_effect req w) [
    | inl same_records ↦ λ schedule_id type j k r s gr pr gs ps.
        u schedule_id type j k r s (rw same_records at gr) pr (rw same_records at gs) ps
    | inr (key, q, t, found, was_open, e) ↦ λ schedule_id type j k r s gr pr gs ps.
        let at = λ (i : ℕ). sql.get-update key (record q { end_at = some t }) w.records i in
        ground (arith, e, at j, at k, u schedule_id type j k r s)
  ]
