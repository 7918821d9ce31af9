-- ===== src/Examples.antt =====
-- Runs of the theorems at concrete inputs.
pub mod Sampling
pub mod Pipelines
pub mod Consoles
pub mod Prints
pub mod Starts
pub mod Boots
pub mod Filters
pub mod Sessions
pub mod Devices
pub mod Networks
pub mod Watches
pub mod Timings
pub mod Outages
