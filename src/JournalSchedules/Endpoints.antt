-- ===== src/JournalSchedules/Endpoints.antt =====
-- The mail schedule endpoints of app/api/v1/work_journals.py, each with the scope of the user.
use rooti_server.Base.{ℕ, Option, some, List}
use rooti_server.Exec.{Exec, ◌>>=◌, ◌>>◌}
use rooti_server.Sql.{Sql}
use rooti_server.Redis.{Redis}
use rooti_server.World.{World}
use rooti_server.Security.{PrincipalDetails}
use rooti_server.Deps.{get_company_scope}
use rooti_server.Tenant.{assert_company, resolve_company_filter}
use rooti_server.JournalSchedules.{
  JournalScheduleCreateRequest, JournalScheduleUpdateRequest, JournalScheduleResponse,
  list_schedules, create, update, delete,
}

module _ ⦃sql : Sql⦄ ⦃redis : Redis⦄ where
  pub list_email_schedules : Option ℕ → PrincipalDetails → Exec World (List JournalScheduleResponse)
  list_email_schedules requested me = do
    scope ← get_company_scope me
    company_id ← resolve_company_filter scope requested
    list_schedules company_id

  pub create_email_schedule :
      JournalScheduleCreateRequest → PrincipalDetails → Exec World JournalScheduleResponse
  create_email_schedule req me = do
    scope ← get_company_scope me
    assert_company scope (some req.company_id)
    create req

  pub update_email_schedule :
      ℕ → JournalScheduleUpdateRequest → PrincipalDetails → Exec World JournalScheduleResponse
  update_email_schedule schedule_id req me = do
    scope ← get_company_scope me
    update schedule_id req scope

  pub delete_email_schedule : ℕ → PrincipalDetails → Exec World (Unit {0})
  delete_email_schedule schedule_id me = do scope ← get_company_scope me; delete schedule_id scope
