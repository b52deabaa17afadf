-- ===== src/WorkRecords/Requests.antt =====
-- Sequences of begin and end requests, and two begin requests that overlap.
use rooti_server.Base.{
  ℕ, ◌≡◌, ◌≢◌, inl, inr, true, some, List, [], ◌∷◌, arith, same_refl, Option-cases,
}
use rooti_server.Errors.{business, work_record_not_found, multiple_results}
use rooti_server.Exec.{ok, err, ◌>>◌, >>-eq-ok}
use rooti_server.Sql.{Sql}
use rooti_server.Sql.Query.{
  scalar_one_or_none, multiple, OneOrNone-cases, one-one, one-ne-multiple, one-multiple,
  one_of_NoRow, NoRow,
}
use rooti_server.Redis.{Redis}
use rooti_server.Models.{WorkRecord}
use rooti_server.Models.Enums.{WorkRecordType-discrete}
use rooti_server.World.{World}
use rooti_server.WorkRecords.{
  RecordRequest, is_open, begin, begin_check, begin_write, end_record, given_or,
}
use rooti_server.WorkRecords.Open.{OpenUnique, begin-OpenUnique, end-OpenUnique, new_record}

pub data RecordCall : Type 0 where
  begin_call end_call : RecordRequest → RecordCall

module _ ⦃sql : Sql⦄ ⦃redis : Redis⦄ where
  abbrev pub call : RecordCall → World → World
  call (begin_call req) w = (begin req w).1
  call (end_call req) w = (end_record req w).1

  -- Requests that are served one after another, each at its time.
  pub calls : List (ℕ × RecordCall) → World → World
  calls [] w = w
  calls ((now, c) ∷ rest) w = calls rest (call c (record w { now = now }))

  call-OpenUnique : (c : RecordCall) (w : World) → OpenUnique w → OpenUnique (call c w)
  call-OpenUnique (begin_call req) w u = begin-OpenUnique req w u
  call-OpenUnique (end_call req) w u = end-OpenUnique req w u

  calls-OpenUnique :
      (cs : List (ℕ × RecordCall)) (w : World) → OpenUnique w → OpenUnique (calls cs w)
  unfolding calls
  calls-OpenUnique [] w u = u
  calls-OpenUnique ((now, c) ∷ rest) w u =
      calls-OpenUnique rest (call c (record w { now = now }))
        (call-OpenUnique c (record w { now = now }) u)

  never_multiple :
      (req : RecordRequest) (w : World)
      → OpenUnique w
      → ((begin req w).0 ≢ err multiple_results) × ((end_record req w).0 ≢ err multiple_results)
  unfolding begin end_record
  never_multiple req w u =
      let p = is_open req.work_schedule_id req.type in
      let single : scalar_one_or_none (sql.select p w.records) ≢ multiple =
        one-ne-multiple p w.records (u req.work_schedule_id req.type) in
      (ground arith, ground arith)

  -- From a world where at most one record of a type is open on each schedule, any sequence of begin
  -- and end requests keeps that so, and no later request meets two open records.
  pub calls_keep_one_open :
      (cs : List (ℕ × RecordCall)) (w : World) (req : RecordRequest)
      → OpenUnique w
      → OpenUnique (calls cs w)
        × ((begin req (calls cs w)).0 ≢ err multiple_results)
        × ((end_record req (calls cs w)).0 ≢ err multiple_results)
  calls_keep_one_open cs w req u =
      let kept = calls-OpenUnique cs w u in
      let safe = never_multiple req (calls cs w) kept in (kept, safe.0, safe.1)

  new_is_open :
      (req : RecordRequest) (w : World) (key : ℕ)
      → is_open req.work_schedule_id req.type key (new_record req w) ≡ true
  unfolding new_record
  new_is_open req w key = ground (arith, same_refl WorkRecordType-discrete req.type)

  -- A successful `end` has closed one open record.
  end_ok :
      (req : RecordRequest) (w w' : World) (row : ℕ × WorkRecord)
      → end_record req w ≡ (ok row, w')
      → (key : ℕ) × (r : WorkRecord) × (t : ℕ) × (sql.get key w.records ≡ some r)
        × (is_open req.work_schedule_id req.type key r ≡ true)
        × (w'.records ≡ sql.update key (record r { end_at = some t }) w.records)
  unfolding end_record
  end_ok req w w' row h =
      let p = is_open req.work_schedule_id req.type in
      elim (OneOrNone-cases (scalar_one_or_none (sql.select p w.records))) [
        | inl none_open ↦ absurd (ground arith)
        | inr rest ↦ elim rest [
          | inl (found, e) ↦
              let sound = one-one p w.records found.0 found.1 e in
              (found.0, found.1, given_or req.at_time w.now, sound.0, sound.1, ground arith)
          | inr many ↦ absurd (ground arith)
        ]
      ]

  end_missing :
      (req : RecordRequest) (w : World)
      → NoRow (is_open req.work_schedule_id req.type) w.records
      → end_record req w ≡ (err (business work_record_not_found), w)
  unfolding end_record
  end_missing req w h =
      ground (arith, one_of_NoRow (is_open req.work_schedule_id req.type) w.records h)

  -- From a world where at most one record of a type is open on each schedule, a record that `end` has
  -- closed leaves none of its type open on its schedule: ending it again is refused and changes nothing.
  pub end_twice :
      (req : RecordRequest) (w w' : World) (row : ℕ × WorkRecord)
      → OpenUnique w
      → end_record req w ≡ (ok row, w')
      → end_record req w' ≡ (err (business work_record_not_found), w')
  end_twice req w w' row u h =
      let (key, q, t, found, was_open, e) = end_ok req w w' row h in
      end_missing req w' λ j r g.
        let at = sql.get-update key (record q { end_at = some t }) w.records j in
        let same_row = u req.work_schedule_id req.type j key r q in ground (arith, e, at, same_row)

  begin_writes :
      (req : RecordRequest) (w w' : World) (row : ℕ × WorkRecord)
      → (begin_write req >> begin_write req) w ≡ (ok row, w')
      → (j k : ℕ) × (t : sql.Table WorkRecord) × (sql.insert (new_record req w) w.records
          ≡ some (j, t))
        × (sql.insert (new_record req w) t ≡ some (k, w'.records))
  unfolding begin_write new_record
  begin_writes req w w' row h = elim (Option-cases (sql.insert (new_record req w) w.records)) [
    | inl refused ↦ absurd (ground arith)
    | inr (first, e) ↦ elim (Option-cases (sql.insert (new_record req w) first.1)) [
      | inl refused ↦ absurd (ground arith)
      | inr (second, f) ↦ (first.0, second.0, first.1, ground arith, ground arith)
    ]
  ]

  end_multiple :
      (req : RecordRequest) (w : World)
      → scalar_one_or_none (sql.select (is_open req.work_schedule_id req.type) w.records) ≡ multiple
      → end_record req w ≡ (err multiple_results, w)
  unfolding end_record
  end_multiple req w h = ground arith

  two_open :
      (req : RecordRequest) (w w' : World) (j k : ℕ) (t : sql.Table WorkRecord)
      → sql.insert (new_record req w) w.records ≡ some (j, t)
      → sql.insert (new_record req w) t ≡ some (k, w'.records)
      → scalar_one_or_none (sql.select (is_open req.work_schedule_id req.type) w'.records)
        ≡ multiple
  two_open req w w' j k t e f =
      let row = new_record req w in
      let at_j = sql.get-insert row w.records j t j e in
      let at_jk = sql.get-insert row t k w'.records j f in
      let at_k = sql.get-insert row t k w'.records k f in
      let fresh = sql.insert_fresh row t k w'.records f in
      one-multiple (is_open req.work_schedule_id req.type) w'.records j k row row (ground arith)
        (new_is_open req w j) (ground arith) (new_is_open req w k) (ground arith)

  -- Two begin requests for one schedule and type that both pass their checks before either writes
  -- leave two open records: ending the record then fails with `MultipleResultsFound`.
  pub overlapping_begins :
      (req : RecordRequest) (w w' : World) (row : ℕ × WorkRecord)
      → (begin_check req >> (begin_check req >> (begin_write req >> begin_write req))) w
        ≡ (ok row, w')
      → end_record req w' ≡ (err multiple_results, w')
  overlapping_begins req w w' row h =
      let writes = begin_write req >> begin_write req in
      let (a, v, checked, rest) =
        >>-eq-ok (begin_check req) (begin_check req >> writes) w w' row h in
      let (b, u, checked_again, written) = >>-eq-ok (begin_check req) writes v w' row rest in
      let (j, k, t, first_insert, second_insert) = begin_writes req u w' row written in
      end_multiple req w' (two_open req u w' j k t first_insert second_insert)
