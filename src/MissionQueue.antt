-- ===== src/MissionQueue.antt =====
-- agent/runtime/mission_queue.py, one module for each concern: the data, the search for cycles, the
-- state file, the public methods, and what is proved of them.
pub mod Graph
pub mod Mission
pub mod Validate
pub mod File
pub mod Methods
