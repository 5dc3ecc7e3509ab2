-- ===== src/Tests.antt =====
-- Tests by evaluation, and the theorems at concrete inputs.
mod QueueTests
pub mod CollectorTests
mod TextTests
pub mod CpuTests
pub mod MeasureTests
mod PowerTests
mod DiskTests
mod StartupTests
pub mod Whole
mod TaskTests
pub mod RestTests
mod DaemonTests
mod JobTests
mod LoggingTests
pub mod SystemInfoTests
