-- ===== src/Logger.antt =====
-- The logger (sources/misc/logger): its texts, its queue of messages and its writers.
pub mod Common
pub mod Log
pub mod Writers
pub mod Command
