-- ===== src/Execution.antt =====
-- execution/query_executor.cpp: the server's encrypted execution of a validated package.
pub mod Predicate
pub mod Combine
pub mod Characters
pub mod Composed
pub mod Reads
pub mod Stored
pub mod Meaning
pub mod Scan
pub mod Join
pub mod Refinement
pub mod OwnColumns
pub mod Accepted
