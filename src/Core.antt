-- ===== src/Core.antt =====
-- src/core: the double-buffered queue and the latency histogram.
pub mod SwapQueue
pub mod Latency
pub mod LogicThread
pub mod IniReader
pub mod Uuid
pub mod Log
