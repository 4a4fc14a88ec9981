-- ===== src/Prefill.antt =====
-- src/llama-moestream.cpp, the prefill path: arenas that hold all experts of a layer, loaded by an
-- operation of the graph and, for the next layer, in the background.
pub mod State
pub mod Pass
pub mod Load
pub mod Ids
pub mod Graph
pub mod Request
