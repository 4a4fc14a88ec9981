-- ===== src/Loader.antt =====
-- src/llama-moestream.cpp, the hooks of the loader: which tensors are streamed, and where they are.
pub mod Names
pub mod Map
pub mod Tables
pub mod Slots
