-- ===== src/Gguf.antt =====
-- src/llama-moestream.cpp, the scanners of a model file in the GGUF format: one value of the
-- metadata by the end of its key, and the sizes of the tensors.
pub mod Stream
pub mod Value
pub mod Keys
pub mod Tensors
