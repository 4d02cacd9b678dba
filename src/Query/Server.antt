-- ===== src/Query/Server.antt =====
-- internal/query/server.go: the gRPC service of a storage node. The metrics and the log are left out.
pub mod Causes
use distributed_log_query_en.Prelude.{if◌then◌else◌}
use distributed_log_query_en.Prelude.Int.{pos, less}
use distributed_log_query_en.Prelude.Result.{Result, ok, err}
use distributed_log_query_en.Types.{QueryRequest, QueryResult, Codec}
use distributed_log_query_en.Storage.Bloom.{BloomLib}
use distributed_log_query_en.Storage.Manager.{Store}
use distributed_log_query_en.Index.{Index}
use distributed_log_query_en.Query.Executor.{
  QueryError, negative_limit, negative_offset, canceled, canceled_before_read, parse_failed,
  read_failed, Context, execute,
}

-- Why a context ended.
pub data ContextEnd : Type 0 where
  by_cancel by_deadline : ContextEnd

pub data Status : Type 0 where
  invalid_argument canceled_status deadline_exceeded internal : Status

unfoldable pub context_status : ContextEnd → Status
context_status by_cancel = canceled_status
context_status by_deadline = deadline_exceeded

unfoldable pub error_status : ContextEnd → QueryError → Status
unfolding context_status
error_status end negative_limit = internal
error_status end negative_offset = internal
error_status end canceled = context_status end
error_status end canceled_before_read = context_status end
error_status end (parse_failed _) = internal
error_status end (read_failed _) = internal

unfoldable pub respond : ContextEnd → Result QueryError QueryResult → Result Status QueryResult
unfolding error_status
respond end (ok r) = ok r
respond end (err e) = err (error_status end e)

unfoldable pub query :
    (codec : Codec) (lib : BloomLib)
    → Index
    → Store lib.Filter
    → Context
    → ContextEnd
    → QueryRequest
    → Result Status QueryResult
unfolding respond
query codec lib idx st ctx end req =
    if less req.limit (pos 0)
    then err invalid_argument
    else if less req.offset (pos 0)
    then err invalid_argument
    else respond end (execute codec lib idx st ctx req)
