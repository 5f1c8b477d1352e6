-- ===== src/Tests.antt =====
-- Runs of the definitions at fixed inputs, and the theorems at inputs that meet their hypotheses.
mod Message
mod AsyncCommand
mod Network
mod Service
mod Reconciler
mod Certificates
