-- ===== src/Tests.antt =====
-- Runs of the definitions on small inputs.
pub mod Models
mod Utils
mod Config
pub mod Functions
pub mod CallSites
mod Tracee
mod Patch
mod Ptrace
pub mod Tracer
pub mod Process
mod Handshake
mod Hook
mod Launch
mod Round
mod Elf
mod Accelerator
mod Profile
