-- ===== src/Tests.antt =====
-- The theorems of the library at concrete inputs.
mod Host
mod Memory
mod Device
mod Gpu
mod Data
mod Hash
mod Set
mod Machine
mod Tables
mod Threads
mod Launches
