-- ===== src/Aggregator.antt =====
-- `Aggregate` of src/internal/usecase/aggregator.go: one nas_ip directory in one cycle.
pub mod Save
pub mod Stages
pub mod Guard
pub mod Once
pub mod Steady
pub mod Worlds
pub mod Atomic
pub mod Results
pub mod Chunks
pub mod Additions
pub mod Idle
pub mod Healthy
pub mod Apart
pub mod Ends
pub mod Settled
pub mod Loaded
pub mod Counted
pub mod Credits
