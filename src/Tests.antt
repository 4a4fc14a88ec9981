-- ===== src/Tests.antt =====
-- Runs at concrete inputs, and the inputs.
pub mod Inputs
mod CacheRuns
mod RemapRuns
mod IoRuns
mod ArenaRuns
mod LoaderRuns
mod GgufRuns
mod FinalizeRuns
mod PolicyRuns
