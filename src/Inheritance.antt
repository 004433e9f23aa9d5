-- ===== src/Inheritance.antt =====
-- scripts/template_inheritance.py, the validator and planner of template inheritance.
pub mod Errors
pub mod Ownership
pub mod Files
pub mod Contract
pub mod Parent
pub mod Plan
pub mod Main
