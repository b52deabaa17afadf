-- ===== src/Errors.antt =====
-- app/core/exceptions.py: the error codes with their HTTP status, the exceptions that the services
-- raise, and the handlers that turn an exception into a response. Messages are left out.
use rooti_server.Base.{ℕ, String, if◌then◌else◌, ◌==◌}

pub data ErrorCode : Type 0 where
  invalid_input method_not_allowed resource_not_found conflict unprocessable read_only : ErrorCode
  auth_invalid_credentials auth_token_expired auth_token_invalid auth_refresh_not_found : ErrorCode
  auth_forbidden auth_account_disabled : ErrorCode
  user_not_found user_username_duplicated user_email_duplicated : ErrorCode
  company_not_found worker_not_found worker_already_hired : ErrorCode
  caregiver_not_found caregiver_relation_duplicated : ErrorCode
  job_standard_not_found job_process_not_found job_worker_not_found : ErrorCode
  job_worker_already_assigned : ErrorCode
  work_schedule_not_found work_record_not_found work_record_out_of_range : ErrorCode
  document_not_found document_type_not_found storage_upload_failed storage_file_too_large :
      ErrorCode
  board_not_found notification_send_failed internal_error : ErrorCode

pub status_code : ErrorCode → ℕ
status_code invalid_input = 400
status_code method_not_allowed = 405
status_code resource_not_found = 404
status_code conflict = 409
status_code unprocessable = 422
status_code read_only = 503
status_code auth_invalid_credentials = 401
status_code auth_token_expired = 401
status_code auth_token_invalid = 401
status_code auth_refresh_not_found = 401
status_code auth_forbidden = 403
status_code auth_account_disabled = 403
status_code user_not_found = 404
status_code user_username_duplicated = 409
status_code user_email_duplicated = 409
status_code company_not_found = 404
status_code worker_not_found = 404
status_code worker_already_hired = 409
status_code caregiver_not_found = 404
status_code caregiver_relation_duplicated = 409
status_code job_standard_not_found = 404
status_code job_process_not_found = 404
status_code job_worker_not_found = 404
status_code job_worker_already_assigned = 409
status_code work_schedule_not_found = 404
status_code work_record_not_found = 404
status_code work_record_out_of_range = 422
status_code document_not_found = 404
status_code document_type_not_found = 404
status_code storage_upload_failed = 500
status_code storage_file_too_large = 413
status_code board_not_found = 404
status_code notification_send_failed = 502
status_code internal_error = 500

-- What a service call can raise: a `BusinessException`, a failed `assert`, SQLAlchemy's
-- `MultipleResultsFound`, `NoResultFound` and `IntegrityError`, Python's `ValueError`, or the error of
-- another library with its text.
pub data Exn : Type 0 where
  business : ErrorCode → Exn
  assertion_error multiple_results no_result_found integrity_error value_error : Exn
  external_error : String → Exn

-- `_business_handler` and `_unhandled_handler`: the code of the response. None of the exceptions
-- besides `BusinessException` is a read-only violation.
unfoldable pub response_code : Exn → ErrorCode
response_code (business code) = code
response_code _ = internal_error

-- `_http_handler`: the best match of a framework error's status.
unfoldable pub http_code : ℕ → ErrorCode
http_code status =
    if status == 400
    then invalid_input
    else if status == 401
    then auth_token_invalid
    else if status == 403
    then auth_forbidden
    else if status == 404
    then resource_not_found
    else if status == 405
    then method_not_allowed
    else if status == 409
    then conflict
    else if status == 413
    then storage_file_too_large
    else if status == 422
    then unprocessable
    else internal_error
