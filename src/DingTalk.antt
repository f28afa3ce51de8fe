-- ===== src/DingTalk.antt =====
-- The synchronisation of an organisation with DingTalk:
-- backend/internal/service/dingtalk_sync_service.go.
pub mod Model
pub mod Sync
pub mod Counts
pub mod Examples
