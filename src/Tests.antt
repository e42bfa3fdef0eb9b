-- ===== src/Tests.antt =====
-- A small operating system to run the operations on, and the theorems at concrete inputs.
mod World
mod Examples
mod Life
mod Mapped
mod Stream
mod Threads
mod Start
