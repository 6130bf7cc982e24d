-- ===== src/Examples.antt =====
-- Runs of the model on concrete values, where the theorems' hypotheses hold.
pub mod Frames
pub mod Tables
pub mod Queues
pub mod Attributes
pub mod Requests
pub mod Bimaps
pub mod Services
pub mod Management
pub mod Codes
pub mod Hashes
