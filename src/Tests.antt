-- ===== src/Tests.antt =====
-- Concrete inputs: what the programs do on them, and the theorems at them.
mod Inheritance
mod Governance
mod Updates
mod Exits
mod Discovery
mod Seeds
mod Statements
mod Runs
mod Warehouse
