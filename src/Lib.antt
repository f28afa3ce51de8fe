-- ===== src/Lib.antt =====
-- Suzuran Cloud backend: a model of the services under backend/internal and of what they promise.
--
-- The program is a web server over PostgreSQL. Handlers and MCP tools call services, a service
-- calls repositories, and a repository runs one statement through the object mapper gorm. The model
-- follows these layers.
--
--   Gorm          the statements of gorm and the database, a parameter with documented laws
--   Gorm/Rows     what a statement does to the row with a given primary key
--   Gorm/Memory   a database that meets the laws, for the examples
--   Prelude       errors, results, and `Exec`: code that changes a store and may fail
--   Org           Model is backend/internal/model of organisations, users, bonds and departments,
--                 Tables is repository/user_repository.go and org_user_bond_repository.go, Members
--                 is service/user_service.go with pkg/username and pkg/password, Directory is
--                 service/org_service.go with repository/org_repository.go
--   OAuth         backend/internal/oauth/oauth_service.go; OAuth/Tables is
--                 repository/oauth_repository.go and the login sessions of oauth/session.go in the
--                 form without Redis, OAuth/Password is oauth/password_service.go, whose login stores
--                 the session that the exchange redeems
--   Workflow      backend/internal/service/workflow_*.go: Model is the data, Validate is
--                 workflow_validate.go, Evaluator is workflow_evaluator.go, Store is
--                 repository/workflow_repository.go and Service is workflow_service.go; History is
--                 any sequence of calls
--   Notification  backend/internal/service/notification_service.go
--   Org/Departments  service/department_service.go with repository/department_repository.go: Build is
--                 the function inside BuildTree, Trees and Assembly the trees that it makes
--   App           the applications. Package is service/app_import_service.go, Store is
--                 repository/application_repository.go and application_deployment_repository.go,
--                 Runtime is backend/internal/runtime (manager.go, sandbox.go, resource_quota.go),
--                 Service is service/application_service.go, Distribution
--                 is service/distribution_service.go. The service calls the manager, the manager the
--                 client of Docker and both the object storage, which are parameters
--   Data          the tables of applications: Statements is repository/data_repository.go, Service is
--                 service/data_service.go
--   Audit         service/audit_service.go with model/audit_log.go
--   Storage       backend/internal/storage/minio.go over the client of MinIO, a parameter
--   Mcp           backend/internal/mcp: Access is auth.go and helpers.go, RateLimit is ratelimit.go,
--                 and backend/internal/middleware, which shares their rules; Tools is the wrapper of
--                 every tool. Request is a call with its arguments and its context (helpers.go and
--                 server.go), Call is a call of a registered tool. Catalog has the tools of
--                 backend/internal/mcp/tools, one module or two for each file there: a handler reads
--                 the arguments and calls the service of Org, Workflow, App, Data, Audit or Storage;
--                 Server is register.go. Promises, ReadOnly, Demands and Isolation are about all of
--                 them together
--   DingTalk      service/dingtalk_sync_service.go with repository/dingtalk_sync_log_repository.go;
--                 it writes the rows of Org
--
-- A function of the source keeps its name, in snake case: `actOnTask` is `act_on_task`, and a method
-- of a repository carries the row's name, as `get_task` for WorkflowTaskRepository.GetByID. The store
-- of a service is a record of the tables that it reaches. There is no transaction in this code, so
-- what a call wrote before an error stays written.
--
-- Bounds: `advance` calls itself without a bound in the source. The model gives it fuel, one for each
-- step that a call passes, and a run that this does not finish is the error `unfinished`. The function
-- inside BuildTree has one fuel more than there are departments, which is enough, and the loop of
-- FormatMemory six, which is enough for 64 bits. Keys and times are natural numbers; strconv.Atoi keeps
-- its 64 bits, and the sizes that a zip file claims wrap around at 64 bits. path.Clean is written out;
-- float64 is a parameter, and so are SHA-256, bcrypt, the signing of tokens, the readers of zip and
-- JSON and the functions of Go's `strings` that the code calls.
--
-- An `int` in the arguments of a call is its 64 bits as a natural number, which `int64_of` reads with
-- its sign. An error that is wrapped with a text is the error that it wraps; a response of success is
-- the value that it carries.
--
-- Not modelled: HTTP handlers and MCP resources, which decode requests and call the services; the
-- transport of MCP; WebAuthn, whose checks are the library's; the inside of the clients of Docker,
-- MinIO, Redis and DingTalk, whose answers are parameters; login sessions that are kept in Redis, whose
-- deletion the code does not check; timestamps that gorm fills; concurrent calls inside one service
-- call.
pub mod Prelude
pub mod Gorm
pub mod OAuth
pub mod Storage
pub mod Notification
pub mod Org
pub mod App
pub mod Audit
pub mod Data
pub mod Mcp
pub mod DingTalk
pub mod Workflow
