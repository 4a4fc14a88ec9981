-- ===== src/Cache.antt =====
-- src/expert_cache.hpp and src/expert_cache.cpp: the expert cache, a set of slots shared by the
-- experts of all layers under an S3-FIFO policy per layer.
pub mod State
pub mod Inv
pub mod Owners
pub mod Change
pub mod Evict
pub mod Alloc
pub mod Doubles
pub mod Create
pub mod Quota
pub mod Pin
pub mod History
pub mod OneLayer
pub mod Acquire
