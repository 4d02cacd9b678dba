-- ===== src/Rpc.antt =====
-- The gRPC status codes that the services of internal/ingest, internal/metadata and internal/cluster
-- answer with and tell apart. The messages of the errors are left out.
use distributed_log_query_en.Prelude.{ℕ}

pub data Code : Type 0 where
  invalid_argument not_found failed_precondition unavailable internal canceled_call : Code
  other_code : ℕ → Code
