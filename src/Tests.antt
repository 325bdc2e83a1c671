-- ===== src/Tests.antt =====
-- Runs on a bench of one drive, and the theorems at concrete inputs.
mod Bench
mod Pdo
mod Exchange
mod Recover
mod Log
mod Info
mod Init
mod Api
mod Staging
mod Service
