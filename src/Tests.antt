-- ===== src/Tests.antt =====
-- Concrete devices, calls and machines, and each property at such an input.
mod Devices
mod Managers
mod Programs
mod Systems
mod Barriers
mod Threads
mod Timers
mod Logs
mod Workers
mod Naps
mod Chaotic
mod Groups
