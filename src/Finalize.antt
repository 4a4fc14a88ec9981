-- ===== src/Finalize.antt =====
-- src/llama-moestream.cpp, `finalize`: what the path of the experts starts with. The files of the
-- model are opened and checked, the arenas of the prefill path are
-- sized and laid out, and the slot of the null expert is filled with zeros.
pub mod Shards
pub mod Threshold
pub mod Zero
pub mod Arena
pub mod Start
