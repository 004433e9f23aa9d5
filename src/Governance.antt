-- ===== src/Governance.antt =====
-- scripts/github_governance.py: the resolver of layered governance policy, the comparison with the
-- state of a GitHub repository, and the verified application of the differences.
pub mod Errors
pub mod Settings
pub mod Profiles
pub mod Policy
pub mod Inventory
pub mod Compare
pub mod Ruleset
pub mod Actions
pub mod Gh
pub mod Discovery
pub mod Files
pub mod Main
pub mod Apply
