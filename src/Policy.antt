-- ===== src/Policy.antt =====
-- research/spikes/s16_policy_compare/main.cpp: the policies that the cache is compared with.
pub mod Lru
