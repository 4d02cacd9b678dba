-- ===== src/Query.antt =====
-- internal/query: the query language, its evaluation on an entry, and local execution.
pub mod Parser
pub mod Match
pub mod Executor
pub mod Server
