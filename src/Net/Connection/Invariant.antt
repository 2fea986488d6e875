-- ===== src/Net/Connection/Invariant.antt =====
-- What every method of a connection keeps: the count of outstanding operations (`Counts`), the
-- receiving side (`Receiving`) and the sending side (`Flow`).
pub mod Counts
pub mod Flow
pub mod Receiving
pub mod System
