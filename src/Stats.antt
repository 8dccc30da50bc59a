-- ===== src/Stats.antt =====
-- The statistics of the pools: service/types.go, service/task.go and service/api.go.
pub mod Window
pub mod Ticks
pub mod Start
pub mod Discovery
pub mod Overview
pub mod Daily
