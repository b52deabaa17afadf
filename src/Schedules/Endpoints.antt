-- ===== src/Schedules/Endpoints.antt =====
-- app/api/v1/schedules.py: every signed-in user reads and closes, an administrator or a charger
-- creates.
use rooti_server.Base.{ℕ, Option, List}
use rooti_server.Exec.{Exec, ◌>>◌}
use rooti_server.Sql.{Sql}
use rooti_server.Redis.{Redis}
use rooti_server.World.{World}
use rooti_server.Security.{PrincipalDetails}
use rooti_server.Deps.{require_admin_or_charger}
use rooti_server.Pagination.{PageParams, Page}
use rooti_server.Schedules.{
  CreateScheduleRequest, BatchMakeRequest, ScheduleResponse, get, list_all, list_for_job_worker,
  list_for_standard, create, batch_make as make, close,
}

module _ ⦃sql : Sql⦄ ⦃redis : Redis⦄ where
  pub list_schedules : PageParams → PrincipalDetails → Exec World (Page ScheduleResponse)
  list_schedules page me = list_all page

  pub get_schedule : ℕ → PrincipalDetails → Exec World ScheduleResponse
  get_schedule schedule_id me = get schedule_id

  pub list_by_job_worker : ℕ → ℕ → ℕ → PrincipalDetails → Exec World (List ScheduleResponse)
  list_by_job_worker job_worker_id since until me = list_for_job_worker job_worker_id since until

  pub list_by_job_standard :
      ℕ → PageParams → ℕ → ℕ → PrincipalDetails → Exec World (Page ScheduleResponse)
  list_by_job_standard job_standard_id page since until me =
      list_for_standard job_standard_id since until page

  pub create_schedule : CreateScheduleRequest → PrincipalDetails → Exec World ScheduleResponse
  create_schedule req me = do require_admin_or_charger me; create req

  pub batch_make : BatchMakeRequest → PrincipalDetails → Exec World (List ScheduleResponse)
  batch_make req me = do require_admin_or_charger me; make req

  -- The body, or its `end_at`, may be missing.
  pub close_schedule : ℕ → Option ℕ → PrincipalDetails → Exec World ScheduleResponse
  close_schedule schedule_id end_at me = close schedule_id end_at
