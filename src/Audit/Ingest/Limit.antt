-- ===== src/Audit/Ingest/Limit.antt =====
-- A scan of all files processes no more lines than its limit.
use newapi_usage.Audit.Ingest.Tables.{Tables}
