-- ===== src/Position.antt =====
-- The management of an open position: backend/position_manager.
pub mod Stops
pub mod Ratchet
pub mod Schemas
pub mod Mapper
pub mod Mapping
pub mod Watch
pub mod Follow
pub mod Closing
pub mod Invalidation
pub mod Tick
pub mod Moves
pub mod Plan
pub mod Following
pub mod BreakEven
pub mod Invalidated
pub mod Refinement
pub mod Ticks
pub mod Final
pub mod Levels
pub mod Calls
pub mod Service
pub mod Guarded
pub mod Cycles
pub mod OnPaper
