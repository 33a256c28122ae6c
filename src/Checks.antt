-- ===== src/Checks.antt =====
-- tessercheck-py/tessercheck/domain/checks.py
pub mod Values
pub mod Violations
pub mod Names
pub mod Declaration
pub mod Marked
pub mod Marking
pub mod KindTable
pub mod Reexports
pub mod Scope
pub mod Registry
pub mod Signatures
pub mod Placement
pub mod Blocks
pub mod Hook
pub mod Governance
