-- ===== src/Tests.antt =====
-- Runs at concrete inputs: the theorems applied where their hypotheses hold.
mod Fixtures
mod Gates
mod Writing
mod Checks
mod Expansion
mod Diagnosis
mod Audits
mod Logbook
mod Planes
mod Times
mod Services
mod Archive
mod Alarm
mod Named
mod Registry
