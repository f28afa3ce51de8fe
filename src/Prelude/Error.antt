-- ===== src/Prelude/Error.antt =====
-- The errors that the services return: a constructor for each message of the source, with the
-- values that the message prints where a theorem speaks of them.
use Prim.Native.Nat.{ℕ}
use Prim.Native.String.{String}

pub data Error : Type 0 where
  -- what the database driver reports
  db : Error
  -- the value of a recursion that the model's fuel did not finish: no error of the program
  unfinished : Error
  -- internal/service/workflow_service.go, workflow_validate.go
  empty_definition undecodable no_steps no_start many_starts : Error
  unnamed_step duplicate_step start_without_next unknown_type : Error
  approval_without_assignee end_without_result condition_without_branches : Error
  unknown_next : String → Error
  definition_not_found definition_not_active instance_not_found not_running not_allowed : Error
  task_not_found already_acted not_assigned no_on_approve no_on_reject : Error
  step_not_found : String → Error
  nil_dereference bad_assignee_value unknown_assignee_type no_bond_repository no_role_users
        no_branch :
      Error
  -- internal/service/workflow_evaluator.go
  empty_condition no_operator not_numeric unsupported_operator : Error
  -- internal/service/distribution_service.go
  app_not_found org_not_found provider_org already_distributed : Error
  not_distributed not_a_member already_admin : Error
  -- internal/service/user_service.go, internal/pkg/username, internal/pkg/password
  username_required bad_username username_taken short_password bad_hash member_not_found : Error
  user_not_found self_removal bonds_unavailable last_admin : Error
  -- internal/oauth/oauth_service.go
  invalid_client invalid_code code_expired client_mismatch redirect_mismatch : Error
  missing_verifier pkce_failed invalid_secret invalid_refresh_token refresh_expired : Error
  unsigned_token invalid_login_session org_not_available invalid_credentials : Error
  -- internal/service/notification_service.go
  invalid_email : Error
  undelivered retries_exhausted : String → Error
  -- internal/service/app_import_service.go, application_service.go
  invalid_zip too_many_entries unsafe_path expands_beyond entry_too_large : Error
  unreadable_entry file_exceeds manifest_missing invalid_manifest manifest_without_name : Error
  manifest_without_runtime manifest_without_entrypoint manifest_port empty_package : Error
  package_too_large app_exists storage_failed storage_unavailable name_required : Error
  runtime_required port_out_of_range runtime_unavailable no_code_package : Error
  -- internal/runtime
  no_docker no_container pull_failed container_failed network_failed no_address : Error
  download_failed disk escapes_dir : Error
  -- internal/service/data_service.go, internal/repository/data_repository.go
  table_name_empty table_name_too_long bad_table_name unsupported_type foreign_table : Error
  table_missing sql_failed : Error
  -- internal/mcp/auth.go, ratelimit.go, internal/middleware
  unauthenticated insufficient_scope insufficient_role org_denied no_role : Error
  rate_limited : ℕ → Error
  missing_header invalid_token_format invalid_token missing_org : Error
  -- internal/mcp/helpers.go, internal/mcp/server.go, internal/mcp/tools
  missing_argument wrong_argument : String → Error
  no_user_id no_org_id no_app_id no_token dept_not_found access_denied : Error
  bad_column bad_row panicked package_too_long bad_base64 bad_time : Error
