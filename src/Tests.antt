-- ===== src/Tests.antt =====
-- Concrete runs of the parts of the platform.
pub mod Extended
pub mod Instances
pub mod Data
mod Measuring
mod Boards
mod Fleets
mod Runs
mod Requests
mod Handling
mod Serving
mod Systems
