-- ===== src/Runtime.antt =====
-- packages/core/src/runtime: the state and the consumer of the log, and what they guarantee.
pub mod State
pub mod Consumer
pub mod Cells
pub mod Converge
pub mod History
pub mod Actions
pub mod Schema
pub mod Opened
pub mod Tests
