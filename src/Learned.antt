-- ===== src/Learned.antt =====
-- src/llama-moestream.cpp, what is learned from run to run: the files of the state directory.
pub mod Files
