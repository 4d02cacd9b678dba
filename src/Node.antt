-- ===== src/Node.antt =====
-- A storage node, as cmd/node/main.go puts it together: the write path of internal/ingest and the
-- executor of internal/query share one manager and one index.
pub mod Start
pub mod Searchable
pub mod Started
pub mod Appended
pub mod Answers
pub mod Reached
