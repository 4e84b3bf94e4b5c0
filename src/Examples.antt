-- ===== src/Examples.antt =====
-- Runs of the definitions on concrete inputs, and the theorems applied at such inputs.
mod Isolation
mod Wire
mod Store
mod Replica
mod Member
mod Session
mod Joining
mod Schedules
mod Start
mod Process
mod Clusters
mod Restart
mod Retry
mod Metrics
