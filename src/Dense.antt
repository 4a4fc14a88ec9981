-- ===== src/Dense.antt =====
-- src/llama-moestream.cpp, the dense path: the weights of a streamed layer's FFN are read into an
-- arena before the layer runs, and those of the next layer in the background.
pub mod Info
pub mod Layout
pub mod Load
