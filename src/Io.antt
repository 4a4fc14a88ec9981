-- ===== src/Io.antt =====
-- src/llama-moestream.cpp: reading parts of the model's files, by one thread and by several.
pub mod Read
pub mod Pool
pub mod Range
pub mod Tuner
