-- ===== src/Builder/Protocol.antt =====
-- The builder keeps the streaming protocol: proofs by a simulation between the blocks of the
-- upstream, the builder's tables and the blocks of what goes out.
pub mod Simulation
pub mod Emit
pub mod Steps
pub mod Runs
pub mod Total
pub mod Valid
