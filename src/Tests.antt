-- ===== src/Tests.antt =====
-- Runs of the theorems on concrete machines.
pub mod Machine
mod Library
mod Files
mod Devices
mod Processes
pub mod Startup
pub mod Programs
mod Forest
