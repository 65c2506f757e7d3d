-- ===== src/Tests.antt =====
-- A store in memory with a few events, small runs of the code, and the theorems at inputs of their
-- own.
mod Samples
mod Stores
mod Parts
mod More
mod Settings
mod Projecting
mod Running
mod Rebuilding
mod Indexing
