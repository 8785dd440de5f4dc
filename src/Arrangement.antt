-- ===== src/Arrangement.antt =====
-- abletonosc/arrangement_view.py: the Arrangement View snapshot, its chunks and its deltas.
pub mod Rows
pub mod Chunks
pub mod Body
pub mod Build
pub mod Reading
pub mod Notes
pub mod Cache
mod Examples
