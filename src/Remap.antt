-- ===== src/Remap.antt =====
-- src/llama-moestream.cpp, the graph operation that rewrites expert ids to slot ids.
pub mod Mrc
pub mod Pack
pub mod Sweep
pub mod Ids
pub mod Call
pub mod Pending
pub mod Jobs
