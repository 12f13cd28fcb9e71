-- ===== src/Server/Durable.antt =====
-- `Execute` on a store whose files hold its memory.
use concurrent_kv_store.Cli.Parser
use concurrent_kv_store.System.Sound.{Sound}
