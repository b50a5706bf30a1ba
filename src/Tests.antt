-- ===== src/Tests.antt =====
-- A small machine with one program on its disk, and the theorems applied to it.
mod Machine
mod Storage
mod Devices
mod Processes
mod Typing
mod Memory
mod Text
mod Programs
mod Ending
mod Switching
mod Searching
mod Starting
mod Refusing
mod Bouncing
