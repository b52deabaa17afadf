-- ===== src/WorkRecords/Endpoints.antt =====
-- app/api/v1/work_records.py: any signed-in user, on any schedule.
use rooti_server.Base.{ℕ, List, String}
use rooti_server.Exec.{Exec}
use rooti_server.Sql.{Sql}
use rooti_server.Redis.{Redis}
use rooti_server.World.{World}
use rooti_server.Security.{PrincipalDetails}
use rooti_server.Models.{WorkRecord, WorkProcessRecord}
use rooti_server.WorkRecords.{
  RecordRequest, ProcessRequest, begin as begin_record, end_record, list_records as records_of,
  begin_process as begin_step, end_process as end_step, list_process,
}

module _ ⦃sql : Sql⦄ ⦃redis : Redis⦄ where
  pub begin : RecordRequest → PrincipalDetails → Exec World (ℕ × WorkRecord)
  begin req me = begin_record req

  pub end : RecordRequest → PrincipalDetails → Exec World (ℕ × WorkRecord)
  end req me = end_record req

  pub list_records : ℕ → PrincipalDetails → Exec World (List (ℕ × WorkRecord))
  list_records schedule_id me = records_of schedule_id

  pub begin_process :
      ProcessRequest → PrincipalDetails → Exec World (ℕ × WorkProcessRecord × String)
  begin_process req me = begin_step req

  pub end_process : ProcessRequest → PrincipalDetails → Exec World (ℕ × WorkProcessRecord × String)
  end_process req me = end_step req

  pub list_process_records :
      ℕ → PrincipalDetails → Exec World (List (ℕ × WorkProcessRecord × String))
  list_process_records schedule_id me = list_process schedule_id
