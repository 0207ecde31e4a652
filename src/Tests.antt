-- ===== src/Tests.antt =====
-- Runs of the model on small inputs, and the theorems at inputs that meet their hypotheses.
mod Samples
mod Entry
mod Memory
mod Threads
mod Handler
mod Heaps
mod Output
mod Users
mod Tiles
